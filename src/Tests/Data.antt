-- ===== src/Tests/Data.antt =====
-- The data of the tests: a digest, a packet, and the connections that carry it.
use hassh.Common.{ℕ, zero, suc, ◌<◌, refl, true, false, none, some, List, [], ◌∷◌, ◌++◌, arith, All}
use hassh.Text.{Bytes, codes}
use hassh.Hassh.Fingerprint.{Digests, Fingerprint}
use hassh.Hassh.KexInit.{KexInit}
use hassh.Hassh.NameList.RoundTrip.{put_uint32}
use hassh.Hassh.KexInit.RoundTrip.{Packet, put_packet}
use hassh.Filter.{BlocklistFilter}
use hassh.Proxy.Reader.{Arrival, Conn}
use hassh.Proxy.Server.{World}

abbrev pub zeros : ℕ → Bytes
zeros zero = []
zeros (suc n) = 0 ∷ zeros n

pub zeros_bytes : (n : ℕ) → All (λ c. c < 256) (zeros n)
zeros_bytes zero = tt
zeros_bytes (suc n) = (omega arith, zeros_bytes n)

-- A digest that is the same for all texts.
abbrev pub blank_digests : Digests
blank_digests = record {
  md5 = λ _. zeros 16;
  sha256 = λ _. zeros 32;
  length-md5 = λ _. refl;
  length-sha256 = λ _. refl;
  md5_bytes = λ _. zeros_bytes 16;
  sha256_bytes = λ _. zeros_bytes 32;
}

abbrev pub kex_names : List Bytes
kex_names = codes "kex" ∷ []

abbrev pub cipher_names : List Bytes
cipher_names = codes "aes" ∷ codes "cc" ∷ []

abbrev pub sample_packet : Packet
sample_packet = record {
  cookie = zeros 16;
  kex = kex_names;
  host_keys = [];
  ciphers = cipher_names;
  ciphers_back = [];
  macs = [];
  macs_back = [];
  compression = [];
  compression_back = [];
  languages = [];
  languages_back = [];
  tail = zeros 5;
}

-- What the parser returns of it.
abbrev pub sample_offer : KexInit
sample_offer = record { kex = kex_names; ciphers = cipher_names; macs = []; compression = [] }

-- The payload has 71 bytes, the padding 4.
abbrev pub packet_bytes : Bytes
packet_bytes = put_uint32 76 ++ (4 ∷ (put_packet sample_packet ++ zeros 4))

abbrev pub client_bytes : Bytes
client_bytes = codes "SSH-2\r\n" ++ packet_bytes

abbrev pub client_addr : Bytes
client_addr = codes "10.0.0.1"

abbrev pub sample_fingerprint : Fingerprint
sample_fingerprint = record {
  hash = codes "00000000000000000000000000000000";
  client_banner = codes "SSH-2";
  remote_addr = client_addr;
}

abbrev pub reads : Bytes → Arrival
reads s = record { chunk = s; read_err = none }

abbrev pub opened : List Arrival → Conn
opened arrivals = record { arrivals = arrivals; deadline = false; refuses_deadline = false }

abbrev pub client_conn : Conn
client_conn = opened (reads (codes "SSH-") ∷ reads (codes "2\r\n") ∷ [])

abbrev pub banner : Bytes
banner = codes "SSH-B\r\n"

abbrev pub upstream_conn : Conn
upstream_conn = opened (reads (codes "SSH-B\r") ∷ reads (codes "\nkey") ∷ reads (codes "s") ∷ [])

abbrev pub blocking : BlocklistFilter
blocking = record { exact = (sample_fingerprint.hash, true) ∷ [] }

abbrev pub sample_world : Conn → Bytes → Bytes → World
sample_world client greeting cached_banner = record {
  digests = blank_digests;
  blocklist = blocking;
  has_syslog = true;
  client_ip = client_addr;
  remote_addr = client_addr;
  client = client;
  greeting = greeting;
  cached_banner = cached_banner;
  greets = true;
  replays = true;
  relays = true;
  upstream = some upstream_conn;
}

-- The handshake in one read, and in two.
abbrev pub whole : List Arrival
whole = reads client_bytes ∷ []

abbrev pub halves : List Arrival
halves = reads (codes "SSH-2\r\n") ∷ reads packet_bytes ∷ []
