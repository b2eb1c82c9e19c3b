-- ===== src/Proxy/Handshake.antt =====
-- pkg/proxy/sshconn.go: `tryParseHandshake`, in its two steps. `err tt` stands for `nil, false`.
-- There is no deferred recovery here.
pub mod Banner
pub mod Totality
pub mod Stability
pub mod RoundTrip
use hassh.Common.{
  ℕ, ◌+◌, ◌-◌, Bool, not, ◌&&◌, ◌||◌, Option, none, some, ltb, leb, ◌==◌, if◌then◌else◌, length,
  Result, ok, err, ◌>>=◌, ◌>>◌, guard, map_err, slice, index, be_uint32,
}
use hassh.Text.{Bytes, codes, index_of}
use hassh.Hassh.KexInit.{parse_kex_init}
use hassh.Hassh.Fingerprint.{Fingerprint, Digests, calculate}

abbrev pub max_packet_size : ℕ
max_packet_size = 35000

abbrev pub ssh_msg_kex_init : ℕ
ssh_msg_kex_init = 20

abbrev pub max_capture_size : ℕ
max_capture_size = 8192

abbrev pub max_banner_length : ℕ
max_banner_length = 255

abbrev pub ssh_prefix : Bytes
ssh_prefix = codes "SSH-"

abbrev pub crlf : Bytes
crlf = codes "\r\n"

-- Nothing to report yet, or ever: `return nil, false`.
abbrev pub NotYet : Type 0
NotYet = Unit {0}

abbrev pub found : Option ℕ → Result NotYet ℕ
found none = err tt
found (some i) = ok i

-- `if len(clientBanner) > maxBannerLength { clientBanner = clientBanner[:maxBannerLength] }`
unfoldable pub clip_banner : Bytes → Result NotYet Bytes
clip_banner line =
    if ltb max_banner_length (length line) then slice line 0 max_banner_length else ok line

-- Step 1: the banner, and the offset behind its CRLF.
unfoldable pub find_banner : Bytes → Result NotYet (Bytes × ℕ)
unfolding clip_banner
find_banner buf = do
  idx ← found (index_of buf ssh_prefix)
  from_banner ← slice buf idx (length buf)
  end_idx ← found (index_of from_banner crlf)
  line ← slice buf idx (idx + end_idx)
  client_banner ← clip_banner line
  ok (client_banner, idx + end_idx + 2)

-- From the packet's length on. `payload_len` is an `int` that may be negative in the source; here
-- it is then 0, and both fail the test `payloadLen <= 0`.
unfoldable pub cut_payload : Bytes → ℕ → Result NotYet Bytes
cut_payload packet_buf packet_len = do
  guard (not (ltb packet_len 1 || ltb max_packet_size packet_len)) tt
  guard (leb (4 + packet_len) (length packet_buf)) tt
  padding_len ← index packet_buf 4
  guard (leb 4 padding_len) tt
  let payload_len = packet_len - padding_len - 1
  guard (ltb 0 payload_len && leb (5 + payload_len) (length packet_buf)) tt
  payload ← slice packet_buf 5 (5 + payload_len)
  guard (ltb 0 (length payload)) tt
  message_type ← index payload 0
  guard (message_type == ssh_msg_kex_init) tt
  ok payload

-- Step 2: the payload of the packet behind the banner.
unfoldable pub find_payload : Bytes → ℕ → Result NotYet Bytes
unfolding cut_payload
find_payload buf banner_end = do
  guard (leb (banner_end + 5) (length buf)) tt
  packet_buf ← slice buf banner_end (length buf)
  length_field ← slice packet_buf 0 4
  packet_len ← be_uint32 length_field
  cut_payload packet_buf packet_len

unfoldable pub try_parse_handshake : Digests → Bytes → Bytes → Result NotYet Fingerprint
unfolding find_banner find_payload
try_parse_handshake d buf remote_addr = do
  guard (leb 10 (length buf)) tt
  (client_banner, banner_end) ← find_banner buf
  payload ← find_payload buf banner_end
  k ← map_err (λ _. tt) (parse_kex_init payload)
  ok (record {
    hash = calculate d k.kex k.ciphers k.macs k.compression;
    client_banner = client_banner;
    remote_addr = remote_addr;
  })
