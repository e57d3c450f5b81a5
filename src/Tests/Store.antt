-- ===== src/Tests/Store.antt =====
-- The peer store and discovery, at states of Tests/World.antt.
use whisp.Prelude.{◌≡◌, refl, none, some, [], ◌∷◌, arith}
use whisp.CString.{codes, strcmp_eq, tokens, sprintf, decimal}
use whisp.Outcome.{done, fault, undefined, set}
use whisp.Btree.{find}
use whisp.Btree.Pointers.{first_text}
use whisp.Process.{RawPeer, Process, write, peer_tree_compare}
use whisp.Peerstore.{peerstore_print_peers, print_loop}
use whisp.Peerstore.View.{Held, StoreIsValid, checked, peer_at}
use whisp.Peerstore.Operations.{CanUpdate}
use whisp.Peerstore.Destroy.{Destroyed, peerstore_destroy_lem}
use whisp.Serialization.{peer_key}
use whisp.Discovery.{multicast_serialization_process}
use whisp.Discovery.Upsert.{peer_received-Upserted}
use whisp.Discovery.Known.{known, IsComplete, Merges}
use whisp.Discovery.Pulse.{multicast_serialization_process_no_keys}
use whisp.Tests.World.{PTree, STree, str, alice, bob, met, people}

abbrev alice-Held : Held people 100 (str 11 (codes "77"), 10)
alice-Held = record {
  peer = alice;
  at = refl;
  named = refl;
  key_below = omega arith;
  below = omega arith;
}

abbrev bob-Held : Held people 100 (str 21 (codes "88"), 20)
bob-Held = record {
  peer = bob;
  at = refl;
  named = refl;
  key_below = omega arith;
  below = omega arith;
}

pub met-StoreIsValid : StoreIsValid met
met-StoreIsValid = record { held = (bob-Held, (alice-Held, tt)); distinct = omega arith }

check_found : checked (codes "77") met ≡ ((1, set 10), met)
unfolding first_text strcmp_eq
check_found = refl

print_test :
    peerstore_print_peers met ≡ done (codes "0)88 [Foriegn]\n" ∷ codes "1)77 [Local]\n" ∷ [])
unfolding peerstore_print_peers print_loop strcmp_eq sprintf decimal find peer_tree_compare
print_test = refl

-- A third peer, not yet in the store.
abbrev carol : RawPeer
carol = record bob { guid = set (str 41 (codes "99")); ip = set (str 4 (codes "10.0.0.9")) }

abbrev heard : Process PTree STree
heard = record met { peers = write people 40 (some carol) }

heard-StoreIsValid : StoreIsValid heard
heard-StoreIsValid = record {
  held = (
    record { peer = bob; at = refl; named = refl; key_below = omega arith; below = omega arith },
    (
      record {
        peer = alice;
        at = refl;
        named = refl;
        key_below = omega arith;
        below = omega arith;
      },
      tt,
    ),
  );
  distinct = omega arith;
}

carol-Held : Held heard.peers 100 (str 41 (codes "99"), 40)
carol-Held = record {
  peer = carol;
  at = refl;
  named = refl;
  key_below = omega arith;
  below = omega arith;
}

carol_new : peer_at heard (codes "99") ≡ none
unfolding first_text strcmp_eq
carol_new = refl

new-IsComplete :
    IsComplete (str 141 (codes "99")) (record carol { guid = set (str 141 (codes "99")) })
new-IsComplete = record { guid = refl; command = (_, refl); ip = (_, refl); port = (_, refl) }

not_known : known met (codes "99") ≡ none
unfolding first_text strcmp_eq
not_known = refl

peer_received-Upserted_example :
    Merges 140 (record carol { guid = set (str 141 (codes "99")) }) 142 (str 141 (codes "99")) met
peer_received-Upserted_example =
    peer_received-Upserted 140 (record carol { guid = set (str 141 (codes "99")) }) 142
      (str 141 (codes "99")) met met-StoreIsValid new-IsComplete (omega arith) (omega arith)
      (omega arith) (omega arith) (λ old h. cc (not_known, h))

alice-known : known met (codes "77") ≡ some alice
unfolding first_text strcmp_eq
alice-known = refl

alice-CanUpdate : (old : RawPeer) → known met (codes "77") ≡ some old → CanUpdate old
alice-CanUpdate old h =
    let same : alice ≡ old = ground (arith, alice-known) in rw (← same) (cc, cc, cc, cc)

junk_tokens : tokens (codes "hello") ≡ codes "hello" ∷ []
unfolding tokens
junk_tokens = refl

junk_key : peer_key (codes "hello") ≡ none
unfolding peer_key strcmp_eq
junk_key = refl

multicast_serialization_process_no_keys_example :
    multicast_serialization_process (codes "hello") 5 (str 2 (codes "10.0.0.7")) met
    ≡ fault undefined
multicast_serialization_process_no_keys_example =
    multicast_serialization_process_no_keys (codes "hello") 5 (str 2 (codes "10.0.0.7")) met
      (omega arith) (λ e. cc (junk_tokens, e)) (rw junk_tokens (junk_key, tt))

-- Both peers are freed, and the store is no more to be used.
peerstore_destroy_lem_example : Destroyed met
peerstore_destroy_lem_example =
    peerstore_destroy_lem ((str 21 (codes "88"), 20) ∷ (str 11 (codes "77"), 10) ∷ []) met refl
      (omega arith)
      (
        record { held = bob-Held; can = ground arith },
        (record { held = alice-Held; can = ground arith }, tt),
      )
