-- ===== src/SendAwait/Ends.antt =====
-- The wait of src/net/send_await.c ends, with a reply or after its time.
use whisp.Prelude.{
  ℕ, ◌≤◌, ◌<◌, ◌≡◌, ◌⊎◌, inl, inr, refl, ◌∙◌, false, ◌&&◌, Option, none, some, List, [], ◌∷◌, ltb,
  ltb-true, ltb-false, arith, Bool-cases, Option-cases,
}
use whisp.CString.{Bytes}
use whisp.Outcome.{done}
use whisp.Btree.{BTree}
use whisp.Process.{Process, peer_tree_compare, session_tree_compare}
use whisp.SendAwait.{Poll, is_null, await_reply, seconds, await_loop, reply_after, send_and_await}

-- Some test comes behind a reading of the clock at which the time is over.
abbrev pub TimeIsUp : ℕ → ℕ → List Poll → Type 0
TimeIsUp timeout st [] = ⊥
TimeIsUp timeout st (k ∷ []) = ⊥
TimeIsUp timeout st (k ∷ l ∷ ks) = (timeout ≤ seconds st k.now) ⊎ TimeIsUp timeout st (l ∷ ks)

-- What a wait comes to, by what happens first: a reply within the time, which is then returned and held
-- in `retval`, or the end of the time.
pub data Comes (timeout st : ℕ) : List Poll → Option Bytes → Option Bytes → Type 0 where
  replied :
      {k : Poll} {ks : List Poll}
      → (m : Bytes) → k.arrived ≡ some m
      → Comes timeout st (k ∷ ks) (some m) (some m)
  timed_out :
      {k l : Poll} {ks : List Poll}
      → k.arrived ≡ none
      → timeout ≤ seconds st k.now
      → Comes timeout st (k ∷ l ∷ ks) none l.arrived
  nothing_yet :
      {k : Poll} {ks : List Poll} {reply last : Option Bytes}
      → k.arrived ≡ none
      → seconds st k.now < timeout
      → Comes timeout st ks reply last
      → Comes timeout st (k ∷ ks) reply last

fresh : (arrived : Option Bytes) → await_reply arrived none ≡ arrived
fresh none = refl
fresh (some m) = refl

-- A test at which something is there, or the time is over.
stopped :
    (timeout st : ℕ) (k : Poll) (ks : List Poll) (now : ℕ) (held : Option Bytes)
    → k.arrived ≡ held
    → (ltb now timeout && is_null held) ≡ false
    → await_loop timeout st (k ∷ ks) now none ≡ some (now, held)
unfolding await_loop
stopped timeout st k ks now held e h =
    let is : await_reply k.arrived none ≡ held = fresh k.arrived ∙ e in ground (arith, is, h)

-- A test at which nothing is there within the time.
went_on :
    (timeout st : ℕ) (k : Poll) (ks : List Poll) (now : ℕ)
    → k.arrived ≡ none
    → now < timeout
    → await_loop timeout st (k ∷ ks) now none ≡ await_loop timeout st ks (seconds st k.now) none
unfolding await_loop
went_on timeout st k ks now e h =
    let is : await_reply k.arrived none ≡ none = fresh k.arrived ∙ e in
    ground (arith, is, ltb-true now timeout h)

abbrev Ended : ℕ → ℕ → List Poll → ℕ → Type 0
Ended timeout st ks now =
    (e : ℕ × Option Bytes) × (await_loop timeout st ks now none ≡ some e)
    × Comes timeout st ks (reply_after timeout e) e.1

too_late :
    (timeout st : ℕ) (k l : Poll) (ks : List Poll) (now : ℕ)
    → k.arrived ≡ none
    → now < timeout
    → timeout ≤ seconds st k.now
    → Ended timeout st (k ∷ l ∷ ks) now
too_late timeout st k l ks now e h up =
    let later = seconds st k.now in
    (
      (later, l.arrived),
      went_on timeout st k (l ∷ ks) now e h
          ∙ stopped timeout st l ks later l.arrived refl (rw (ltb-false later timeout up) refl),
      rw (ltb-false later timeout up) (timed_out e up),
    )

await_loop-Ended :
    (timeout st : ℕ) (ks : List Poll) (now : ℕ)
    → now < timeout
    → TimeIsUp timeout st ks
    → Ended timeout st ks now
await_loop-Ended timeout st [] now h up = absurd up
await_loop-Ended timeout st (k ∷ []) now h up = absurd up
await_loop-Ended timeout st (k ∷ l ∷ ks) now h up = elim (Option-cases k.arrived) [
  | inr (m, e) ↦ (
    (now, some m),
    stopped timeout st k (l ∷ ks) now (some m) e (rw (ltb-true now timeout h) refl),
    rw (ltb-true now timeout h) (replied m e),
  )
  | inl e ↦ elim up [
    | inl over ↦ too_late timeout st k l ks now e h over
    | inr on ↦ elim (Bool-cases (ltb (seconds st k.now) timeout)) [
      | inr f ↦ too_late timeout st k l ks now e h (ground arith)
      | inl t ↦
          let (x, ran, comes) =
            await_loop-Ended timeout st (l ∷ ks) (seconds st k.now) (ground arith) on in
          (x, went_on timeout st k (l ∷ ks) now e h ∙ ran, nothing_yet e (ground arith) comes)
    ]
  ]
]

module _ {P : BTree peer_tree_compare} {S : BTree session_tree_compare} where
  pub sent_to : Bytes → Bytes → Bytes → Process P S → Process P S
  sent_to host port payload p = record p {
    sent = record { host = host; port = port; payload = payload } ∷ p.sent;
  }

  -- The first call, with every argument there and a timeout that is not 0: once the clock has gone past the
  -- timeout the call has returned, and the message has been sent once. If something was received before
  -- the clock was past the timeout, the first such thing is returned; else NULL is.
  pub send_and_await-ends :
      (host port message rport : Bytes) (timeout st : ℕ) (polls : List Poll) (p : Process P S)
      → 0 < timeout
      → TimeIsUp timeout st polls
      → (reply : Option Bytes) × (last : Option Bytes) × (send_and_await
            (some host)
            (some port)
            (some message)
            (some rport)
            timeout
            st
            polls
            none
            p
          ≡ done (some (reply, last), sent_to host rport message p))
        × Comes timeout st polls reply last
  unfolding send_and_await sent_to
  send_and_await-ends host port message rport timeout st polls p pos up =
      let (e, ran, comes) = await_loop-Ended timeout st polls 0 pos up in
      (reply_after timeout e, e.1, ground (arith, ran), comes)
