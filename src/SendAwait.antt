-- ===== src/SendAwait.antt =====
-- src/net/send_await.c: a message is sent, and a reply is awaited for a time. Nothing in the program
-- calls it.
--
-- A run of the loop is a list of its tests: what the listening thread has received since the last one,
-- and what `clock` reads in the body that follows. The number of seconds that have passed is whole, so
-- of the `float timeout` only the number of whole seconds below it matters, which is the argument here.
pub mod Ends
use whisp.Prelude.{
  ℕ, ◌-◌, ◌/◌, ◌==◌, ◌&&◌, Bool, true, false, Option, none, some, List, [], ◌∷◌, ltb, not,
  if◌then◌else◌,
}
use whisp.CString.{Bytes}
use whisp.Outcome.{Outcome, done, jnx_check, ◌>>=◌, ◌>>◌}
use whisp.Btree.{BTree}
use whisp.Process.{Process, peer_tree_compare, session_tree_compare}
use whisp.Discovery.Beacon.{clocks_per_sec}
use whisp.App.{required}

-- One test of the loop.
pub record Poll : Type 0 where
  pub arrived : Option Bytes
  pub now : ℕ

-- `retval == NULL`
abbrev pub is_null : Option Bytes → Bool
is_null none = true
is_null (some m) = false

-- `await_reply`, on the listening thread, sets `retval`.
abbrev pub await_reply : Option Bytes → Option Bytes → Option Bytes
await_reply (some msg) retval = some msg
await_reply none retval = retval

-- `(e - st) / CLOCKS_PER_SEC`; `clock` does not go back.
abbrev pub seconds : ℕ → ℕ → ℕ
seconds st e = (e - st) / clocks_per_sec

-- The loop: `current_time` and `retval` when it ends; none, if it has not ended after these tests.
unfoldable pub await_loop : ℕ → ℕ → List Poll → ℕ → Option Bytes → Option (ℕ × Option Bytes)
await_loop timeout st [] current_time retval = none
await_loop timeout st (k ∷ ks) current_time retval =
    elim (ltb current_time timeout && is_null (await_reply k.arrived retval)) [
      | true ↦ await_loop timeout st ks (seconds st k.now) (await_reply k.arrived retval)
      | false ↦ some (current_time, await_reply k.arrived retval)
    ]

-- What is returned after the loop.
abbrev pub reply_after : ℕ → ℕ × Option Bytes → Option Bytes
reply_after timeout (current_time, retval) = if ltb current_time timeout then retval else none

module _ {P : BTree peer_tree_compare} {S : BTree session_tree_compare} where
  -- The reply or NULL, what `retval` holds after the call, and the process; none where the call has
  -- not returned. `retval` is static: it comes in as the last call has left it.
  unfoldable pub send_and_await :
      Option Bytes
      → Option Bytes
      → Option Bytes
      → Option Bytes
      → ℕ
      → ℕ
      → List Poll
      → Option Bytes
      → Process P S
      → Outcome (Option (Option Bytes × Option Bytes) × Process P S)
  unfolding await_loop
  send_and_await host port message rport timeout st polls retval p = do
    h ← required host
    o ← required port
    m ← required message
    r ← required rport
    jnx_check (not (timeout == 0))
    let q : Process P S = record p { sent = record { host = h; port = r; payload = m } ∷ p.sent }
    elim (await_loop timeout st polls 0 retval) [
      | none ↦ done (none, q)
      | some (current_time, last) ↦ done (some (reply_after timeout (current_time, last), last), q)
    ]
