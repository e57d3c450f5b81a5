-- ===== src/Sound.antt =====
-- What every operation of a running process keeps: a well-formed store of peers
-- (src/data/peerstore.c), well-formed sessions (src/data/sessioncontrol.c), and the settings.
pub mod Updates
pub mod Additions
pub mod Datagrams
pub mod Peers
pub mod Pulses
pub mod Lookups
pub mod Fields
pub mod Messages
pub mod Replacements
pub mod Checks
pub mod Received
pub mod Starts
pub mod Lines
use whisp.Prelude.{ℕ, ◌<◌, ◌≤◌, ◌≡◌, refl, sym, subst, ◌∙◌, arith}
use whisp.Btree.{BTree}
use whisp.Process.{Process, Ref, peer_tree_compare, session_tree_compare}
use whisp.Peerstore.View.{StoreIsValid, RefIsValid}
use whisp.Peerstore.Changes.{IsStore-Agrees}
use whisp.Peerstore.Operations.{RefIsValid-map}
use whisp.SessionControl.View.{SessionsAreValid, AreValidIn}
use whisp.SessionControl.Changes.{AreValidIn-map, AreSessions-Agrees}

module _ {P : BTree peer_tree_compare} {S : BTree session_tree_compare} where
  pub record IsSound (p : Process P S) : Type 0 where
    pub store : StoreIsValid p
    pub sessions : SessionsAreValid p

  -- From `p` to `q` the settings stay, no address is given back, and `q` is well formed.
  pub record Keeps (p q : Process P S) : Type 0 where
    pub sound : IsSound q
    pub configuration : q.configuration ≡ p.configuration
    pub grows : p.next ≤ q.next

  pub Keeps-refl : (p : Process P S) → IsSound p → Keeps p p
  Keeps-refl p h = record { sound = h; configuration = refl; grows = omega arith }

  pub Keeps-trans : (p q r : Process P S) → Keeps p q → Keeps q r → Keeps p r
  Keeps-trans p q r h k = record {
    sound = k.sound;
    configuration = k.configuration ∙ h.configuration;
    grows = omega (arith, h.grows, k.grows);
  }

  -- A store is well formed in every process with the same peers below `next`.
  pub store-Agrees :
      (p q : Process P S)
      → StoreIsValid p
      → q.store ≡ p.store
      → ((b : ℕ) → b < p.next → q.peers b ≡ p.peers b)
      → p.next ≤ q.next
      → StoreIsValid q
  store-Agrees p q v e same le =
      subst (λ (r : Ref P.Tree). RefIsValid r q) (sym e)
        (RefIsValid-map p.store p q (λ es w. IsStore-Agrees same le w) v)

  pub sessions-Agree :
      (p q : Process P S)
      → SessionsAreValid p
      → q.session_tree ≡ p.session_tree
      → ((b : ℕ) → b < p.next → q.sessions b ≡ p.sessions b)
      → p.next ≤ q.next
      → SessionsAreValid q
  sessions-Agree p q v e same le =
      subst (λ (r : Ref S.Tree). AreValidIn r q) (sym e)
        (AreValidIn-map p.session_tree p q
          (λ es w. AreSessions-Agrees q.sessions p.sessions p.next q.next es same le w) v)
