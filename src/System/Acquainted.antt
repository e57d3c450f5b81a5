-- ===== src/System/Acquainted.antt =====
-- A process with no session that knows itself and another (src/data/peerstore.c): its user may start one
-- with the other (`user_start_session` of src/app/userinput.c).
use whisp.Prelude.{ℕ, ◌≡◌, refl, false, Option, none, some, List, []}
use whisp.CString.{Bytes, CStr, codes}
use whisp.CString.Tokens.{strcmp_eq_refl}
use whisp.Outcome.{done, set}
use whisp.Btree.{BTree}
use whisp.Btree.Pointers.{first_text}
use whisp.Process.{RawPeer, Session, Process, no_tree, peer_tree_compare, session_tree_compare}
use whisp.Peerstore.View.{StoreIsValid, peer_at}
use whisp.SessionControl.{session_generate_id}
use whisp.SessionControl.Between.{has_between}
use whisp.Discovery.Known.{peer_of, known}
use whisp.UserInput.Start.{fresh_id}
use whisp.UserInput.Start.Offer.{CanStart}

-- What is known is somewhere.
pub peer_of-some :
    (peers : ℕ → Option RawPeer) (o : Option ℕ) (rp : RawPeer)
    → peer_of peers o ≡ some rp
    → (a : ℕ) × (o ≡ some a) × (peers a ≡ some rp)
peer_of-some peers none rp e = cc
peer_of-some peers (some a) rp e = (a, refl, e)

pub apart_in-empty : (x y : ℕ) (sessions : ℕ → Option Session) → has_between x y sessions [] ≡ false
unfolding has_between
apart_in-empty x y sessions = refl

pub first_text-empty : (text : Bytes) → first_text text [] ≡ none
unfolding first_text
first_text-empty text = refl

module _ {P : BTree peer_tree_compare} {S : BTree session_tree_compare} where
  pub record Acquainted (own guid debug : Bytes) (p : Process P S) : Type 0 where
    pub store : StoreIsValid p
    pub no_sessions : p.session_tree ≡ no_tree
    pub has_guid : p.configuration (codes "GUID") ≡ some own
    pub has_debug : p.configuration (codes "DEBUG") ≡ some debug
    pub itself : RawPeer
    pub own_guid : CStr
    pub knows_itself : known p own ≡ some itself
    pub own_named : itself.guid ≡ set own_guid
    pub is_own : own_guid.text ≡ own
    pub other : RawPeer
    pub other_guid : CStr
    pub ip : CStr
    pub port : CStr
    pub knows_other : known p guid ≡ some other
    pub other_named : other.guid ≡ set other_guid
    pub is_other : other_guid.text ≡ guid
    pub other_ip : other.ip ≡ set ip
    pub other_port : other.port ≡ set port

  abbrev pub can_start :
      (own guid debug text : Bytes) (uuid : List ℕ) (p : Process P S)
      → Acquainted own guid debug p
      → session_generate_id uuid ≡ done text
      → CanStart guid uuid p
  can_start own guid debug text uuid p h made =
      let (local, own_at, own_there) =
        peer_of-some p.peers (peer_at p own) h.itself h.knows_itself in
      let (foriegn, other_at, other_there) =
        peer_of-some p.peers (peer_at p guid) h.other h.knows_other in
      record {
        local = local;
        foriegn = foriegn;
        text = text;
        l = h.itself;
        names = record {
          local_at = local;
          foriegn_at = foriegn;
          local_peer = h.itself;
          foriegn_peer = h.other;
          local_guid = h.own_guid;
          foriegn_guid = h.other_guid;
          session_id = fresh_id text p;
          origin_guid = h.own_guid;
          ip = h.ip;
          port = h.port;
          own = own;
          debug = debug;
          is_local = refl;
          is_foriegn = refl;
          is_id = refl;
          is_origin_guid = h.own_named;
          local_held = own_there;
          foriegn_held = other_there;
          local_named = h.own_named;
          foriegn_named = h.other_named;
          foriegn_ip = h.other_ip;
          foriegn_port = h.other_port;
          has_guid = h.has_guid;
          has_debug = h.has_debug;
        };
        store = h.store;
        sessions = rw h.no_sessions tt;
        peers = rw h.no_sessions tt;
        knows_own = own_at;
        knows_other = other_at;
        apart = rw h.no_sessions (apart_in-empty local foriegn p.sessions);
        at = own_there;
        made = made;
        new = rw h.no_sessions (first_text-empty text);
        mine = rw h.is_own (strcmp_eq_refl own);
      }
