-- ===== src/Passive/Adopt.antt =====
-- A session under the id of a received one, and the run that puts the new one in its place
-- (src/net/passive.c).
use whisp.Prelude.{
  ℕ, Bool, ◌<◌, ◌≡◌, ◌≢◌, refl, Option, none, some, List, [], ◌∷◌, true, false, if◌then◌else◌,
  arith, All, Bool-cases, inl, inr,
}
use whisp.CString.{Bytes, CStr, strcmp_eq}
use whisp.Outcome.{done, Slot, unset, null, set}
use whisp.Btree.{BTree, Entry, find}
use whisp.Btree.Pointers.{All-map₂, first_text}
use whisp.Process.{Session, Process, peer_tree_compare, session_tree_compare, write}
use whisp.SessionControl.{session_get_session, session_add, session_destroy}
use whisp.SessionControl.View.{HeldSession, listed_in, session_at}
use whisp.SessionControl.Unique.{Stands, session_at-find}
use whisp.SessionControl.Destroy.{IsReadable}
use whisp.Authentication.{put_session}
use whisp.Passive.{with_keypair, replace_session, keep_session}

first_text-none :
    (id : Bytes) (es : List Entry)
    → All (λ (e : Entry). strcmp_eq e.0.text id ≡ false) es
    → first_text id es ≡ none
unfolding first_text
first_text-none id [] h = refl
first_text-none id ((k, a) ∷ es) h = ground (arith, h.0, first_text-none id es h.1)

pub otherwise {ℓ} : {A : Type ℓ} (b : Bool) (x y : A) → b ≡ false → x ≡ (if b then x else y) → x ≡ y
otherwise true x y e h = cc
otherwise false x y e h = h

-- No other session that is left has the id.
pub gone_text :
    (o : ℕ) (id : Bytes) (heap : ℕ → Option Session) (next : ℕ) (es : List Entry)
    → All (λ (e : Entry). strcmp_eq e.0.text id ≡ true → e.1 ≡ o) es
    → All (HeldSession (write heap o none) next) es
    → first_text id es ≡ none
gone_text o id heap next es only held = first_text-none id es (
    All-map₂ (λ (e : Entry). strcmp_eq e.0.text id ≡ true → e.1 ≡ o) es
      (λ e f h. elim (Bool-cases (strcmp_eq e.0.text id)) [
        | inl t ↦ absurd (ground (arith, h.at, f t))
        | inr n ↦ n
      ])
      only held)

-- The new session, with the keypair of the old one.
abbrev pub adopted : Slot ℕ → Session → Session
adopted (set k) s = record s { local_keypair = set k }
adopted _ s = s

pub adopted-id : (k : Slot ℕ) (s : Session) → (adopted k s).session_id ≡ s.session_id
adopted-id unset s = refl
adopted-id null s = refl
adopted-id (set k) s = refl

pub adopted-state : (k : Slot ℕ) (s : Session) → (adopted k s).current_state ≡ s.current_state
adopted-state unset s = refl
adopted-state null s = refl
adopted-state (set k) s = refl

pub with_keypair_lem :
    (old new : Session) (keypair : Slot ℕ)
    → old.local_keypair ≡ keypair
    → keypair ≢ unset
    → with_keypair old new ≡ done (adopted keypair new)
unfolding with_keypair
with_keypair_lem old new unset e h = absurd (h refl)
with_keypair_lem old new null e h = rw e refl
with_keypair_lem old new (set k) e h = ground (arith, e)

module _ {P : BTree peer_tree_compare} {S : BTree session_tree_compare} where
  -- The session at `o` is the one under the id of the session that arrives, and the only one; its
  -- pointers that are tested were written, and the origin is not NULL.
  pub record Replaces (o : ℕ) (old : Session) (j k : CStr) (p : Process P S) : Type 0 where
    pub at : p.sessions o ≡ some old
    pub named : old.session_id ≡ set j
    pub found : find session_tree_compare j (listed_in S p.session_tree) ≡ some o
    pub text : j.text ≡ k.text
    pub there : session_at p k.text ≡ some o
    pub only :
        All (λ (e : Entry). strcmp_eq e.0.text k.text ≡ true → e.1 ≡ o) (listed_in S p.session_tree)
    pub below : o < p.next
    pub readable : IsReadable old
    pub origin : CStr
    pub has_origin : old.session_origin_guid ≡ set origin
    pub keypair : old.local_keypair ≢ unset

  -- A session that stands under its id can be replaced.
  pub Stands-Replaces :
      (o : ℕ) (j k origin : CStr) (s : Session) (p : Process P S)
      → Stands o j.text s p
      → s.session_id ≡ set j
      → j.text ≡ k.text
      → s.session_origin_guid ≡ set origin
      → IsReadable s
      → s.local_keypair ≢ unset
      → Replaces o s j k p
  Stands-Replaces o j k origin s p h named text has_origin readable keypair = record {
    at = h.at;
    named = named;
    found = session_at-find p j.text o s j h.valid h.at named h.found;
    text = text;
    there = rw (← text) h.found;
    only = rw (← text) h.only;
    below = h.below;
    readable = readable;
    origin = origin;
    has_origin = has_origin;
    keypair = keypair;
  }

  pub replace_session_ran :
      (o a : ℕ) (old s s' : Session) (j origin : CStr) (p q r : Process P S)
      → p.sessions o ≡ some old
      → p.sessions a ≡ some s
      → old.session_origin_guid ≡ set origin
      → old.session_id ≡ set j
      → with_keypair old s ≡ done s'
      → session_destroy o (put_session a s' p) ≡ done q
      → session_add a q ≡ done r
      → replace_session o a p ≡ done r
  unfolding replace_session
  replace_session_ran o a old s s' j origin p q r at new has_origin named with destroyed added =
      ground (arith, at, new, has_origin, named, with, destroyed, added)

  pub keep_session_ran :
      (o a : ℕ) (id : Bytes) (p q : Process P S)
      → session_get_session id p ≡ done (1, set o)
      → replace_session o a p ≡ done q
      → keep_session 1 a id p ≡ done (some q)
  unfolding keep_session
  keep_session_ran o a id p q got replaced = ground (arith, got, replaced)
