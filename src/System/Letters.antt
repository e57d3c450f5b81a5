-- ===== src/System/Letters.antt =====
-- The messages of a handshake between two processes that know each other and have no sessions: their texts
-- are words and fit the buffer of `serialize_session_data` (src/data/serialization.c).
use whisp.Prelude.{ℕ, ◌<◌, ◌≤◌, ◌≡◌, refl, ap, sym, subst, false, List, length, arith, inr}
use whisp.CString.{Bytes, CStr, codes, show_int, decimal, int32, sprintf, strcmp_eq}
use whisp.CString.Tokens.{IsWord}
use whisp.CString.Decimal.{length-show_int}
use whisp.CString.Lengths.{total, length-sprintf}
use whisp.App.Ports.{int32-small}
use whisp.Outcome.{done}
use whisp.Btree.{BTree}
use whisp.Process.{Process, peer_tree_compare, session_tree_compare, size_of_int}
use whisp.Peerstore.View.{peer_at}
use whisp.Serialization.Sessions.{Wire, session_frame, wire_args}
use whisp.SessionControl.{session_generate_id}
use whisp.Encryption.{Crypto, public, key_to_string}
use whisp.Authentication.{Draws}
use whisp.Passive.Agreement.{read_id, read_origin}
use whisp.UserInput.Start.Offer.{CanStart}
use whisp.UserInput.Conversation.{first_wire, CanAnswer, second_wire, third_wire, Letters}
use whisp.System.Acquainted.{peer_of-some, first_text-empty, Acquainted, can_start}

-- The length of a short secret, as it is printed.
short_len : (t : Bytes) → length t < 1000 → length (show_int (int32 (length t))) ≤ 5
short_len t h =
    rw (int32-small (length t) (omega (arith, h))) (length-show_int (length t) (omega (arith, h)))

-- A message of words that are not too long.
short_fits :
    (w : Wire) → total (wire_args w) < 5800 → length (sprintf session_frame (wire_args w)) < 6000
short_fits w h = omega (arith, length-sprintf session_frame (wire_args w))

module _ {P : BTree peer_tree_compare} {S : BTree session_tree_compare} where
  abbrev pub can_answer :
      (C : Crypto) (d : Draws) (own guid debug debug' text : Bytes) (uuid : List ℕ)
      (p q : Process P S) (a : Acquainted own guid debug p)
      → Acquainted guid own debug' q
      → (made : session_generate_id uuid ≡ done text) → strcmp_eq own guid ≡ false
      → strcmp_eq guid own ≡ false
      → CanAnswer (first_wire C d guid uuid p (can_start own guid debug text uuid p a made)) q
  can_answer C d own guid debug debug' text uuid p q a b made apart apart' =
      let w = first_wire C d guid uuid p (can_start own guid debug text uuid p a made) in
      let (x, own_at, own_there) = peer_of-some q.peers (peer_at q guid) b.itself b.knows_itself in
      let (y, other_at, other_there) = peer_of-some q.peers (peer_at q own) b.other b.knows_other in
      record {
        own = guid;
        other = own;
        own_at = x;
        other_at = y;
        names = record {
          local_at = x;
          foriegn_at = y;
          local_peer = b.itself;
          foriegn_peer = b.other;
          local_guid = b.own_guid;
          foriegn_guid = b.other_guid;
          session_id = read_id w q.next;
          origin_guid = read_origin w q.next;
          ip = b.ip;
          port = b.port;
          own = guid;
          debug = debug';
          is_local = refl;
          is_foriegn = refl;
          is_id = refl;
          is_origin_guid = refl;
          local_held = own_there;
          foriegn_held = other_there;
          local_named = b.own_named;
          foriegn_named = b.other_named;
          foriegn_ip = b.other_ip;
          foriegn_port = b.other_port;
          has_guid = b.has_guid;
          has_debug = b.has_debug;
        };
        sessions = rw b.no_sessions tt;
        knows = record {
          valid = b.store;
          configured = b.has_guid;
          differ = apart;
          own_at = own_at;
          other_at = other_at;
        };
        both = inr (a.is_own, a.is_other);
        new = rw b.no_sessions (first_text-empty text);
        theirs = rw a.is_own apart';
      }

  third_fits :
      (d : Draws) (guid encrypted : Bytes) (uuid : List ℕ) (w : Wire) (p : Process P S)
      (h : CanStart guid uuid p)
      → length h.names.local_guid.text < 24
      → length h.names.foriegn_guid.text < 24
      → length w.id < 24
      → length w.origin < 24
      → length w.local_key < 1000
      → length w.foriegn_key < 1000
      → length encrypted < 1000
      → length (sprintf session_frame (wire_args (third_wire d guid uuid encrypted w p h))) < 6000
  third_fits d guid encrypted uuid w p h l f i o k k' e =
      short_fits (third_wire d guid uuid encrypted w p h) (
        omega (arith, l, f, i, o, k, k', e, short_len encrypted e, length-show_int 6 (omega arith)))

  -- Ids of less than 24 bytes, and keys and a secret of less than 1000, all words.
  pub Acquainted-Letters :
      (C : Crypto) (d e : Draws) (own guid debug debug' text encrypted : Bytes) (uuid : List ℕ)
      (p q : Process P S) (a : Acquainted own guid debug p) (b : Acquainted guid own debug' q)
      (made : session_generate_id uuid ≡ done text) (apart : strcmp_eq own guid ≡ false)
      (apart' : strcmp_eq guid own ≡ false)
      → IsWord own × (length own < 24)
      → IsWord guid × (length guid < 24)
      → IsWord text × (length text < 24)
      → IsWord (key_to_string C d.keypair public d.slack)
        × (length (key_to_string C d.keypair public d.slack) < 1000)
      → IsWord (key_to_string C e.keypair public e.slack)
        × (length (key_to_string C e.keypair public e.slack) < 1000)
      → IsWord encrypted × (length encrypted < 1000)
      → Letters C d e guid uuid encrypted p q
          (can_start own guid debug text uuid p a made)
          (can_answer C d own guid debug debug' text uuid p q a b made apart apart')
  unfolding show_int decimal int32 size_of_int
  Acquainted-Letters C d e own guid debug debug' text encrypted uuid p q a b made apart apart' mine
        theirs id key key' secret =
      let h = can_start own guid debug text uuid p a made in
      let k = can_answer C d own guid debug debug' text uuid p q a b made apart apart' in
      let w1 = first_wire C d guid uuid p h in
      let w2 = second_wire C e w1 q k in
      let w3 = third_wire d guid uuid encrypted w2 p h in
      let null_word : IsWord (codes "(null)") = (cc, ground arith) in
      let word : (k : CStr) (t : Bytes) → k.text ≡ t → IsWord t → IsWord k.text =
        λ k t e g. subst IsWord (sym e) g in
      let a1 = ap (λ (t : Bytes). length t) a.is_own in
      let a2 = ap (λ (t : Bytes). length t) a.is_other in
      let b1 = ap (λ (t : Bytes). length t) b.is_own in
      let b2 = ap (λ (t : Bytes). length t) b.is_other in
      record {
        first_fits = short_fits w1 (omega (arith, a1, a2, mine, theirs, id, key));
        first_words = record {
          local_guid = word a.own_guid own a.is_own mine.0;
          foriegn_guid = word a.other_guid guid a.is_other theirs.0;
          secret = null_word;
          id = id.0;
          origin = word a.own_guid own a.is_own mine.0;
          local_key = key.0;
          foriegn_key = null_word;
        };
        second_fits = short_fits w2 (omega (arith, a1, a2, b1, b2, mine, theirs, id, key, key'));
        second_words = record {
          local_guid = word b.own_guid guid b.is_own theirs.0;
          foriegn_guid = word b.other_guid own b.is_other mine.0;
          secret = null_word;
          id = id.0;
          origin = word a.own_guid own a.is_own mine.0;
          local_key = key.0;
          foriegn_key = key'.0;
        };
        third_fits =
            third_fits d guid encrypted uuid w2 p h (omega (arith, a1, mine))
              (omega (arith, a2, theirs)) id.1 (omega (arith, a1, mine)) key.1 key'.1 secret.1;
        third_words = record {
          local_guid = word a.own_guid own a.is_own mine.0;
          foriegn_guid = word a.other_guid guid a.is_other theirs.0;
          secret = secret.0;
          id = id.0;
          origin = word a.own_guid own a.is_own mine.0;
          local_key = key.0;
          foriegn_key = key'.0;
        };
      }
