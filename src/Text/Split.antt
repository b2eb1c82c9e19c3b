-- ===== src/Text/Split.antt =====
-- `split` and `join` undo each other, and what the parts of a split look like.
use hassh.Common.{
  ℕ, ◌≡◌, ◌≢◌, refl, ◌∙◌, inl, inr, List, [], ◌∷◌, ◌++◌, append-nil, arith, ◌==◌, ==_refl,
  Bool-cases, All,
}
use hassh.Text.Defs.{Bytes, cons_head, split, join}

abbrev pub Lacks : ℕ → Bytes → Type 0
Lacks b = All (λ c. c ≢ b)

split-ne-nil : (s : Bytes) (sep : ℕ) → split s sep ≢ []
unfolding split
split-ne-nil [] sep = cc
split-ne-nil (c ∷ s) sep = ground (arith, split-ne-nil s sep)

join-cons_head :
    (c sep : ℕ) (ps : List Bytes) → ps ≢ [] → join (cons_head c ps) sep ≡ c ∷ join ps sep
unfolding join
join-cons_head c sep [] h = absurd (h refl)
join-cons_head c sep (p ∷ []) h = refl
join-cons_head c sep (p ∷ q ∷ ps) h = refl

join-cons_nil : (sep : ℕ) (ps : List Bytes) → ps ≢ [] → join ([] ∷ ps) sep ≡ sep ∷ join ps sep
unfolding join
join-cons_nil sep [] h = absurd (h refl)
join-cons_nil sep (p ∷ ps) h = refl

-- Joining the parts of a split gives the text back.
pub join-split : (s : Bytes) (sep : ℕ) → join (split s sep) sep ≡ s
unfolding split
join-split [] sep = unfold join in refl
join-split (c ∷ s) sep = elim (Bool-cases (c == sep)) [
  | inl e ↦
      rw (e, join-cons_nil sep (split s sep) (split-ne-nil s sep), join-split s sep) (ground arith)
  | inr e ↦ rw (e, join-cons_head c sep (split s sep) (split-ne-nil s sep), join-split s sep)
]

split_run :
    (p rest : Bytes) (sep : ℕ) (q : Bytes) (qs : List Bytes)
    → Lacks sep p
    → split rest sep ≡ q ∷ qs
    → split (p ++ rest) sep ≡ (p ++ q) ∷ qs
unfolding split
split_run [] rest sep q qs h e = e
split_run (c ∷ p) rest sep q qs (hc, h) e = ground (arith, split_run p rest sep q qs h e)

split_last : (p : Bytes) (sep : ℕ) → Lacks sep p → split p sep ≡ p ∷ []
unfolding split
split_last [] sep h = refl
split_last (c ∷ p) sep (hc, h) = ground (arith, split_last p sep h)

split_at_sep : (s : Bytes) (sep : ℕ) → split (sep ∷ s) sep ≡ [] ∷ split s sep
unfolding split
split_at_sep s sep = rw ==_refl

-- Splitting a join gives the parts back, if there is a part and none holds the separator.
pub split-join :
    (ps : List Bytes) (sep : ℕ) → ps ≢ [] → All (Lacks sep) ps → split (join ps sep) sep ≡ ps
unfolding join
split-join [] sep h all = absurd (h refl)
split-join (p ∷ []) sep h (hp, _) = split_last p sep hp
split-join (p ∷ q ∷ ps) sep h (hp, hps) =
    split_run p (sep ∷ join (q ∷ ps) sep) sep [] (q ∷ ps) hp
      (rw (split_at_sep, split-join (q ∷ ps) sep (cc) hps))
    ∙ rw append-nil

-- No part of a split holds the separator.
pub split-Lacks : (s : Bytes) (sep : ℕ) → All (Lacks sep) (split s sep)
unfolding split
split-Lacks [] sep = (tt, tt)
split-Lacks (c ∷ s) sep = elim (Bool-cases (c == sep)) [
  | inl e ↦ rw e (tt, split-Lacks s sep)
  | inr e ↦ rw e (cons_head-Lacks (split s sep) (ground arith) (split-Lacks s sep))
]
  where
    cons_head-Lacks :
        (ps : List Bytes) → c ≢ sep → All (Lacks sep) ps → All (Lacks sep) (cons_head c ps)
    cons_head-Lacks [] ne h = ((ne, tt), tt)
    cons_head-Lacks (p ∷ ps) ne (hp, h) = ((ne, hp), h)
