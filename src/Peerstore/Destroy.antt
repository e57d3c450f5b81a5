-- ===== src/Peerstore/Destroy.antt =====
-- `peerstore_destroy` of src/data/peerstore.c frees every peer of the store, and leaves a pointer to the
-- tree that was freed.
use whisp.Prelude.{
  ℕ, ◌≡◌, ◌≢◌, refl, ap, ◌∙◌, sym, subst, Option, none, some, List, [], ◌∷◌, map, arith, All,
}
use whisp.CString.{Bytes, CStr}
use whisp.Outcome.{done, fault, undefined, set}
use whisp.Btree.{BTree, Entry, find, Inserts, here, there}
use whisp.Btree.Pointers.{Absent, Distinct, All-map, All-map₂, All-Inserts_new, find_each}
use whisp.Process.{
  RawPeer, Process, peer_tree_compare, session_tree_compare, Ref, tree, dangling, write,
}
use whisp.Peerstore.{
  count_in, check_in, peerstore_get_count, peerstore_check_peer, peerstore_delete_peer,
  destroy_loop, destroy_in, peerstore_destroy,
}
use whisp.Peerstore.View.{Held, stored_in, peer_tree_compare-ByAddress}
use whisp.Peerstore.Operations.{CanUpdate}

-- What is taken out of distinct entries with the key of the first one is the first one.
first_removed :
    (k : CStr) (a : ℕ) (es : List Entry) (e : Entry) {xs ys : List Entry}
    → Inserts e xs ys
    → ys ≡ (k, a) ∷ es
    → e.0.at ≡ k.at
    → Absent k es
    → xs ≡ es
first_removed k a es e here is same apart = cc
first_removed k a es e (there {x} {xs} {ys} i) is same apart =
    let rest : ys ≡ es = cc in
    absurd
      (All-Inserts_new (λ (f : Entry). f.0.at ≢ k.at) i (subst (Absent k) (sym rest) apart) same)

-- An entry whose peer has all the fields that are freed.
pub record Freeable (peers : ℕ → Option RawPeer) (next : ℕ) (e : Entry) : Type 0 where
  pub held : Held peers next e
  pub can : CanUpdate held.peer

-- Two entries are two peers.
apart_of :
    (peers : ℕ → Option RawPeer) (next a : ℕ) (k : CStr) (e : Entry)
    → Held peers next (k, a)
    → Held peers next e
    → e.0.at ≢ k.at
    → a ≢ e.1
apart_of peers next a k e h f apart = λ same.
    let keys : k ≡ e.0 =
      let there : peers a ≡ peers e.1 = ap peers same in
      ground (arith, there, h.at, h.named, f.at, f.named) in
    apart (ap (λ (c : CStr). c.at) (sym keys))

freed_Freeable :
    (peers : ℕ → Option RawPeer) (next a : ℕ) (e : Entry)
    → a ≢ e.1
    → Freeable peers next e
    → Freeable (write peers a none) next e
freed_Freeable peers next a e apart h = record {
  held = record {
    peer = h.held.peer;
    at = let there = h.held.at in ground arith;
    named = h.held.named;
    key_below = h.held.key_below;
    below = h.held.below;
  };
  can = h.can;
}

module _ {P : BTree peer_tree_compare} {S : BTree session_tree_compare} where
  peerstore_delete_peer_ran :
      (a : ℕ) (rp : RawPeer) (k : CStr) (t : P.Tree) (p : Process P S)
      → p.peers a ≡ some rp
      → rp.guid ≡ set k
      → CanUpdate rp
      → p.store ≡ tree t
      → peerstore_delete_peer a p
        ≡ done (record p { peers = write p.peers a none; store = tree (P.remove t k) })
  unfolding peerstore_delete_peer
  peerstore_delete_peer_ran a rp k t p at named can is = rw (at, named, is) (ground (arith, can))

  -- What the loop leaves of the entries.
  pub record Emptied (es : List Entry) (p : Process P S) : Type 0 where
    pub after : Process P S
    pub ran : destroy_loop (map (λ (e : Entry). e.0) es) p ≡ done after
    pub left : P.Tree
    pub store_after : after.store ≡ tree left
    pub only_peers : after ≡ record p { store = after.store; peers = after.peers }
    pub gone : All (λ (e : Entry). after.peers e.1 ≡ none) es
    pub others : (b : ℕ) → All (λ (e : Entry). e.1 ≢ b) es → after.peers b ≡ p.peers b

  destroy_loop-Emptied :
      (es : List Entry) (t : P.Tree) (p : Process P S)
      → p.store ≡ tree t
      → P.entries t ≡ es
      → Distinct es
      → All (Freeable p.peers p.next) es
      → Emptied es p
  unfolding destroy_loop
  destroy_loop-Emptied [] t p is same d h = record {
    after = p;
    ran = refl;
    left = t;
    store_after = is;
    only_peers = refl;
    gone = tt;
    others = λ b _. refl;
  }
  destroy_loop-Emptied ((k, a) ∷ es) t p is same d (f, h) =
      let found : find peer_tree_compare k (P.entries t) ≡ some a =
        rw same (find_each peer_tree_compare-ByAddress ((k, a) ∷ es) d).0 in
      let looked : P.lookup t k ≡ some a = P.lookup_lem t k ∙ found in
      let ran = peerstore_delete_peer_ran a f.held.peer k t p f.held.at f.held.named f.can is in
      let r = P.entries-remove t k a found in
      let now : P.entries (P.remove t k) ≡ es =
        first_removed k a es (r.key, a) r.taken same
          ((peer_tree_compare-ByAddress.same r.key k).0 r.equal) d.0 in
      let q : Process P S = record p {
        peers = write p.peers a none;
        store = tree (P.remove t k);
      } in
      let apart : All (λ (e : Entry). a ≢ e.1) es =
        All-map₂ (λ (e : Entry). e.0.at ≢ k.at) es
          (λ e g x. apart_of p.peers p.next a k e f.held x.held g) d.0 h in
      let rest = destroy_loop-Emptied es (P.remove t k) q refl now d.1 (
        All-map₂ (λ (e : Entry). a ≢ e.1) es (λ e g x. freed_Freeable p.peers p.next a e g x) apart
          h) in
      let cleared : rest.after.peers a ≡ none =
        rest.others a (All-map (λ (e : Entry). a ≢ e.1) es (λ e g s. g (sym s)) apart)
        ∙ (let z : write p.peers a none a ≡ none = ground arith in z) in
      record {
        after = rest.after;
        ran = rw (is, looked) (rw ran rest.ran);
        left = rest.left;
        store_after = rest.store_after;
        only_peers = rest.only_peers;
        gone = (cleared, rest.gone);
        others = λ b g.
            rest.others b g.1
            ∙ (let apart_b = g.0 in let z : write p.peers a none b ≡ p.peers b = ground arith in z);
      }

  pub record Destroyed (p : Process P S) : Type 0 where
    pub after : Process P S
    pub ran : peerstore_destroy p ≡ done after
    pub only_peers : after ≡ record p { store = dangling; peers = after.peers }
    pub gone : All (λ (e : Entry). after.peers e.1 ≡ none) (stored_in P p.store)
    pub others :
        (b : ℕ) → All (λ (e : Entry). e.1 ≢ b) (stored_in P p.store) → after.peers b ≡ p.peers b
    pub count_after : peerstore_get_count after ≡ fault undefined
    pub check_after : (guid : Bytes) → peerstore_check_peer guid after ≡ fault undefined
    pub destroy_after : peerstore_destroy after ≡ fault undefined

  dangling_count : (p : Process P S) → p.store ≡ dangling → peerstore_get_count p ≡ fault undefined
  unfolding peerstore_get_count count_in
  dangling_count p e = rw e refl

  dangling_check :
      (guid : Bytes) (p : Process P S)
      → p.store ≡ dangling
      → peerstore_check_peer guid p ≡ fault undefined
  unfolding peerstore_check_peer check_in
  dangling_check guid p e = rw e refl

  dangling_destroy : (p : Process P S) → p.store ≡ dangling → peerstore_destroy p ≡ fault undefined
  unfolding peerstore_destroy destroy_in
  dangling_destroy p e = rw e refl

  destroy_in_ran :
      (r : Ref P.Tree) (t : P.Tree) (p q : Process P S)
      → r ≡ tree t
      → destroy_loop (P.keys t) p ≡ done q
      → destroy_in r p ≡ done (record q { store = dangling })
  unfolding destroy_in
  destroy_in_ran r t p q e h = rw e (rw h refl)

  -- A store with a tree whose entries are distinct, each for a peer that has the fields that are freed, is
  -- destroyed without undefined behaviour: each of its peers is freed, once, and nothing else is. But
  -- the pointer to the tree stays, so that counting the peers, looking for one or destroying the store is
  -- undefined behaviour from then on.
  pub peerstore_destroy_lem :
      (t : P.Tree) (p : Process P S)
      → p.store ≡ tree t
      → Distinct (P.entries t)
      → All (Freeable p.peers p.next) (P.entries t)
      → Destroyed p
  unfolding peerstore_destroy
  peerstore_destroy_lem t p is d h =
      let e = destroy_loop-Emptied (P.entries t) t p is refl d h in
      let q : Process P S = record e.after { store = dangling } in
      record {
        after = q;
        ran = destroy_in_ran p.store t p e.after is (rw P.keys_lem e.ran);
        only_peers = ap (λ (x : Process P S). record x { store = dangling }) e.only_peers;
        gone =
            subst (λ (r : Ref P.Tree). All (λ (f : Entry). q.peers f.1 ≡ none) (stored_in P r))
              (sym is) e.gone;
        others = λ b g.
            e.others b
              (subst (λ (r : Ref P.Tree). All (λ (e : Entry). e.1 ≢ b) (stored_in P r)) is g);
        count_after = dangling_count q refl;
        check_after = λ guid. dangling_check guid q refl;
        destroy_after = dangling_destroy q refl;
      }
