-- ===== src/Sound/Lookups.antt =====
-- A search of the store (`peerstore_check_peer` of src/data/peerstore.c) on the way through a message.
use whisp.Prelude.{ℕ, ◌≤◌, ◌≡◌, refl, ap, ◌∙◌, arith, Option-cases, inl, inr}
use whisp.CString.{Bytes}
use whisp.Outcome.{done, Slot}
use whisp.Btree.{BTree}
use whisp.Btree.Pointers.{first_text}
use whisp.Process.{Process, peer_tree_compare, session_tree_compare, Ref, no_tree, tree, dangling}
use whisp.Peerstore.{peerstore_check_peer}
use whisp.Peerstore.View.{StoreIsValid, RefIsValid, checked_in, checked, peerstore_check_peer_lem}
use whisp.Serialization.Sessions.{bumped}
use whisp.Sound.{IsSound, Keeps, store-Agrees, sessions-Agree}

module _ {P : BTree peer_tree_compare} {S : BTree session_tree_compare} where
  -- The store may have got its tree, and texts were copied; nothing else is different.
  pub record OnlyReads (p q : Process P S) : Type 0 where
    pub store : StoreIsValid q
    pub sessions_after : q.sessions ≡ p.sessions
    pub session_tree_after : q.session_tree ≡ p.session_tree
    pub configuration_after : q.configuration ≡ p.configuration
    pub grows : p.next ≤ q.next

  pub OnlyReads-trans : (p q r : Process P S) → OnlyReads p q → OnlyReads q r → OnlyReads p r
  OnlyReads-trans p q r h k = record {
    store = k.store;
    sessions_after = k.sessions_after ∙ h.sessions_after;
    session_tree_after = k.session_tree_after ∙ h.session_tree_after;
    configuration_after = k.configuration_after ∙ h.configuration_after;
    grows = omega (arith, h.grows, k.grows);
  }

  pub OnlyReads-refl : (p : Process P S) → StoreIsValid p → OnlyReads p p
  OnlyReads-refl p v = record {
    store = v;
    sessions_after = refl;
    session_tree_after = refl;
    configuration_after = refl;
    grows = omega arith;
  }

  pub bumped-OnlyReads : (p : Process P S) → StoreIsValid p → OnlyReads p (bumped p)
  bumped-OnlyReads p v = record {
    store = store-Agrees p (bumped p) v refl (λ b h. refl) (omega arith);
    sessions_after = refl;
    session_tree_after = refl;
    configuration_after = refl;
    grows = omega arith;
  }

  checked_in-OnlyReads :
      (r : Ref P.Tree) (guid : Bytes) (p : Process P S)
      → p.store ≡ r
      → RefIsValid r p
      → OnlyReads p (checked_in r guid p).1
  checked_in-OnlyReads no_tree guid p e v = record {
    store = rw P.entries-create (record { held = tt; distinct = tt });
    sessions_after = refl;
    session_tree_after = refl;
    configuration_after = refl;
    grows = omega arith;
  }
  checked_in-OnlyReads (tree t) guid p e v =
      let w : StoreIsValid p = rw e v in
      elim (Option-cases (first_text guid (P.entries t))) [
        | inl n ↦ rw n (OnlyReads-refl p w)
        | inr (a, n) ↦ rw n (OnlyReads-refl p w)
      ]
  checked_in-OnlyReads dangling guid p e v = absurd v

  -- A search of the store.
  pub peerstore_check_peer-OnlyReads :
      (guid : Bytes) (r : ℕ × Slot ℕ) (p q : Process P S)
      → StoreIsValid p
      → peerstore_check_peer guid p ≡ done (r, q)
      → OnlyReads p q
  peerstore_check_peer-OnlyReads guid r p q v h =
      let go : checked guid p ≡ (r, q) = let c = peerstore_check_peer_lem guid p v in cc in
      let same : (checked guid p).1 ≡ q = ap (λ (x : (ℕ × Slot ℕ) × Process P S). x.1) go in
      rw (← same) (checked_in-OnlyReads p.store guid p refl v)

  pub OnlyReads-Keeps : (p q : Process P S) → IsSound p → OnlyReads p q → Keeps p q
  OnlyReads-Keeps p q v h = record {
    sound = record {
      store = h.store;
      sessions =
          sessions-Agree p q v.sessions h.session_tree_after (λ b l. rw h.sessions_after refl)
            h.grows;
    };
    configuration = h.configuration_after;
    grows = h.grows;
  }
