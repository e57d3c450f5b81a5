-- ===== src/Tests/Wire.antt =====
-- Texts and messages.
use whisp.Prelude.{ℕ, zero, suc, ◌≡◌, refl, some, [], ◌∷◌, arith, length}
use whisp.CString.{Bytes, codes, tokens, strtok_r, decimal, atoi, negsuc, strcmp_eq}
use whisp.Outcome.{done, fault, undefined, ◌>>=◌}
use whisp.Serialization.{okay, port_key, serialize_data, deserialize_data, peer_key}
use whisp.Serialization.Peers.{
  sent_peer, deserialize_data-serialize_data, serialize_data_overflow, deserialize_data_lone_key,
}
use whisp.Tests.World.{str}

tokens_test : tokens (codes "::GUID:12::X:") ≡ codes "GUID" ∷ codes "12" ∷ codes "X" ∷ []
unfolding tokens
tokens_test = refl

strtok_r_test : strtok_r (codes ":GUID:12") ≡ some (codes "GUID", codes "12")
unfolding strtok_r
strtok_r_test = refl

decimal_test : decimal 50321 ≡ codes "50321"
unfolding decimal
decimal_test = refl

atoi_test : atoi (codes "  -42x") ≡ negsuc 41
unfolding atoi
atoi_test = refl

deserialize_data-serialize_data_example :
    (serialize_data
        (some (codes "77"))
        (some (codes "PULSE"))
        (some (codes "50"))
        (some (codes "42"))
        (some (codes "N"))
      >>= λ sent. deserialize_data sent.0 sent.1 (str 2 (codes "10.0.0.7")) 100)
    ≡ done (
      okay,
      some (
        100,
        sent_peer
            (codes "77")
            (codes "PULSE")
            (codes "50")
            (codes "42")
            (codes "N")
            (str 2 (codes "10.0.0.7"))
            100,
      ),
      106,
    )
deserialize_data-serialize_data_example =
    deserialize_data-serialize_data (codes "77") (codes "PULSE") (codes "50") (codes "42")
      (codes "N") (str 2 (codes "10.0.0.7")) 100 (ground arith) (omega arith)

repeat : ℕ → ℕ → Bytes
repeat zero c = []
repeat (suc n) c = c ∷ repeat n c

length-repeat : (n c : ℕ) → length (repeat n c) ≡ n
unfolding repeat
length-repeat zero c = refl
length-repeat (suc n) c = omega (arith, length-repeat n c)

serialize_data_overflow_example :
    serialize_data
      (some (repeat 981 b'7'))
      (some (codes "PULSE"))
      (some (codes "50"))
      (some (codes "42"))
      (some (codes "N"))
    ≡ fault undefined
serialize_data_overflow_example =
    serialize_data_overflow (repeat 981 b'7') (codes "PULSE") (codes "50") (codes "42") (codes "N")
      (omega (arith, length-repeat 981 b'7'))

lone_key : peer_key (codes "TPORT") ≡ some port_key
unfolding peer_key strcmp_eq
lone_key = refl

one_token : tokens (codes "TPORT:") ≡ codes "TPORT" ∷ []
unfolding tokens
one_token = refl

deserialize_data_lone_key_example :
    deserialize_data (codes "TPORT:") 6 (str 2 (codes "10.0.0.7")) 100 ≡ fault undefined
deserialize_data_lone_key_example =
    deserialize_data_lone_key (codes "TPORT:") 6 (codes "TPORT") port_key (str 2 (codes "10.0.0.7"))
      100 (omega arith) one_token lone_key (cc)
