-- ===== src/Serialization/Peers.antt =====
-- What `deserialize_data` makes of the messages of `serialize_data`, and of messages cut short.
use whisp.Prelude.{
  ℕ, length-append, ◌+◌, ◌<◌, ◌≤◌, ◌≡◌, refl, ap, ◌≢◌, ◌∙◌, some, List, [], ◌∷◌, ◌++◌, length,
  arith,
}
use whisp.CString.{Bytes, CStr, codes, strcmp_eq, tokens, sprintf, delimiter}
use whisp.CString.Tokens.{IsWord, tokens-word}
use whisp.Outcome.{done, fault, undefined, set, ◌>>=◌}
use whisp.Process.{RawPeer}
use whisp.Serialization.{
  okay, PeerKey, guid_key, serialize_data, data_frame, peer_key, set_peer_field, peer_loop,
  read_peer, deserialize_data,
}

-- Words, each with a delimiter behind it.
abbrev pub framed : List Bytes → Bytes
framed [] = []
framed (w ∷ ws) = w ++ (delimiter ∷ framed ws)

abbrev pub AllWords : List Bytes → Type 0
AllWords [] = Unit
AllWords (w ∷ ws) = IsWord w × AllWords ws

pub tokens-framed : (ws : List Bytes) → AllWords ws → tokens (framed ws) ≡ ws
tokens-framed [] h = unfold tokens in refl
tokens-framed (w ∷ ws) h = tokens-word w (framed ws) h.0 ∙ ap (◌∷◌ w) (tokens-framed ws h.1)

abbrev pub peer_words : Bytes → Bytes → Bytes → Bytes → Bytes → List Bytes
peer_words guid command port secure_port peerage =
    codes "GUID"
    ∷ guid
    ∷ codes "COMMAND"
    ∷ command
    ∷ codes "TPORT"
    ∷ port
    ∷ codes "SECUREPORT"
    ∷ secure_port
    ∷ codes "PEERAGE"
    ∷ peerage
    ∷ []

sprintf-data_frame :
    (g c t s a : Bytes)
    → sprintf data_frame (g ∷ c ∷ t ∷ s ∷ a ∷ []) ≡ framed (peer_words g c t s a)
unfolding sprintf
sprintf-data_frame g c t s a = refl

length-sprintf-data_frame :
    (g c t s a : Bytes)
    → length (sprintf data_frame (g ∷ c ∷ t ∷ s ∷ a ∷ []))
      ≡ length g + length c + length t + length s + length a + 43
length-sprintf-data_frame g c t s a =
    rw sprintf-data_frame (omega (arith, length-append {0} {A = ℕ}))

-- The peer that a message of `serialize_data` is read as: its fields are copied in order.
abbrev pub sent_peer : Bytes → Bytes → Bytes → Bytes → Bytes → CStr → ℕ → RawPeer
sent_peer guid command port secure_port peerage ip next = record {
  guid = set (record { at = next + 1; text = guid });
  command = set (record { at = next + 1 + 1; text = command });
  ip = set ip;
  port = set (record { at = next + 1 + 1 + 1; text = port });
  secure_port = set (record { at = next + 1 + 1 + 1 + 1; text = secure_port });
  peerstring = set (record { at = next + 1 + 1 + 1 + 1 + 1; text = peerage });
}

read_peer-peer_words :
    (g c t s a : Bytes) (ip : CStr) (next : ℕ)
    → read_peer (peer_words g c t s a) ip next
      ≡ done (okay, some (next, sent_peer g c t s a ip next), next + 1 + 1 + 1 + 1 + 1 + 1)
unfolding peer_loop peer_key set_peer_field strcmp_eq
read_peer-peer_words g c t s a ip next = refl

-- The text of the message, and the words in it.
abbrev pub peer_message : Bytes → Bytes → Bytes → Bytes → Bytes → Bytes
peer_message g c t s a = sprintf data_frame (g ∷ c ∷ t ∷ s ∷ a ∷ [])

pub serialize_data_fits :
    (g c t s a : Bytes)
    → length g + length c + length t + length s + length a ≤ 980
    → serialize_data (some g) (some c) (some t) (some s) (some a)
      ≡ done (peer_message g c t s a, length (peer_message g c t s a))
unfolding serialize_data
serialize_data_fits g c t s a fits = ground (arith, length-sprintf-data_frame g c t s a)

tokens-peer_message :
    (g c t s a : Bytes)
    → AllWords (g ∷ c ∷ t ∷ s ∷ a ∷ [])
    → tokens (peer_message g c t s a) ≡ peer_words g c t s a
tokens-peer_message g c t s a w =
    rw sprintf-data_frame (tokens-framed (peer_words g c t s a) (ground arith))

pub deserialize_data-peer_message :
    (g c t s a : Bytes) (ip : CStr) (next : ℕ)
    → AllWords (g ∷ c ∷ t ∷ s ∷ a ∷ [])
    → deserialize_data (peer_message g c t s a) (length (peer_message g c t s a)) ip next
      ≡ done (okay, some (next, sent_peer g c t s a ip next), next + 1 + 1 + 1 + 1 + 1 + 1)
unfolding deserialize_data
deserialize_data-peer_message g c t s a ip next w =
    rw (tokens-peer_message g c t s a w)
      (ground (arith, length-sprintf-data_frame g c t s a, read_peer-peer_words g c t s a ip next))

-- A message of five non-empty texts without ":" that fits the buffer is sent, and read back as a
-- peer with those texts and the address that it came from.
pub deserialize_data-serialize_data :
    (g c t s a : Bytes) (ip : CStr) (next : ℕ)
    → AllWords (g ∷ c ∷ t ∷ s ∷ a ∷ [])
    → length g + length c + length t + length s + length a ≤ 980
    → (serialize_data (some g) (some c) (some t) (some s) (some a) >>= λ sent.
        deserialize_data sent.0 sent.1 ip next)
      ≡ done (okay, some (next, sent_peer g c t s a ip next), next + 1 + 1 + 1 + 1 + 1 + 1)
deserialize_data-serialize_data g c t s a ip next w fits =
    rw (serialize_data_fits g c t s a fits) (deserialize_data-peer_message g c t s a ip next w)

-- A message whose fields are too long for the buffer of 1024 bytes is undefined behaviour.
pub serialize_data_overflow :
    (g c t s a : Bytes)
    → 981 ≤ length g + length c + length t + length s + length a
    → serialize_data (some g) (some c) (some t) (some s) (some a) ≡ fault undefined
unfolding serialize_data
serialize_data_overflow g c t s a h = ground (arith, length-sprintf-data_frame g c t s a)

-- A message of one token that is a key, other than GUID: the error path frees a pointer that was
-- never set.
pub deserialize_data_lone_key :
    (raw : Bytes) (len : ℕ) (t : Bytes) (k : PeerKey) (ip : CStr) (next : ℕ)
    → 0 < len
    → tokens raw ≡ t ∷ []
    → peer_key t ≡ some k
    → k ≢ guid_key
    → deserialize_data raw len ip next ≡ fault undefined
unfolding deserialize_data peer_loop
deserialize_data_lone_key raw len t k ip next pos one is other = ground arith
