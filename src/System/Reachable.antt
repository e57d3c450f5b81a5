-- ===== src/System/Reachable.antt =====
-- What holds in every state that a process reaches, whatever reaches it and whatever the user types.
use whisp.Prelude.{
  ℕ, ◌==◌, ◌≤◌, ◌≡◌, refl, ap, ◌∙◌, sym, true, false, none, arith, Bool-cases, inl, inr,
}
use whisp.Outcome.{done, done_injective, >>=-eq-done, ◌>>=◌}
use whisp.Btree.{BTree}
use whisp.Process.{Process, peer_tree_compare, session_tree_compare}
use whisp.Encryption.{Crypto}
use whisp.Des.{Cipher}
use whisp.Discovery.{multicast_pulse}
use whisp.Discovery.Beacon.{Beacon, Round, gtb, elapsed, pulse_at, beat, discovery_teardown}
use whisp.Main.{Node, sigint, on_interrupt, passive_listener_stop, signal_callback}
use whisp.Sound.{IsSound, Keeps, store-Agrees, sessions-Agree}
use whisp.Sound.Pulses.{multicast_listener-Keeps, beat-Keeps}
use whisp.Sound.Received.{passive_listener_callback-Keeps}
use whisp.Sound.Lines.{user_input-Keeps, on_interrupt-Keeps}
use whisp.System.{System, Step, pulse, datagram, message, text, line, signal, Reach, here, next}

module _ {P : BTree peer_tree_compare} {S : BTree session_tree_compare} where
  -- From `x` to `y`: the process is well formed, gives no address back, and keeps its settings and where
  -- its pulse goes until it exits.
  pub record Lives (x y : System P S) : Type 0 where
    pub sound : IsSound y.node.process
    pub grows : x.node.process.next ≤ y.node.process.next
    pub configuration :
        y.node.has_exited ≡ false → y.node.process.configuration ≡ x.node.process.configuration
    pub group :
        (y.node.beacon.bgroup ≡ x.node.beacon.bgroup) × (y.node.beacon.port ≡ x.node.beacon.port)
    pub ports :
        (y.node.passive_port ≡ x.node.passive_port) × (y.node.secure_port ≡ x.node.secure_port)
    pub running : y.node.has_exited ≡ false → x.node.has_exited ≡ false

  -- Only the process, or what the loop waits for, is different.
  Keeps-Lives :
      (p : Process P S) (x y : System P S)
      → Keeps x.node.process p
      → y.node ≡ record x.node { process = p }
      → Lives x y
  Keeps-Lives p x y k e =
      let same : y.node.process ≡ p = ap (λ (n : Node P S). n.process) e in
      record {
        sound = rw same k.sound;
        grows = rw same k.grows;
        configuration = λ r. rw same k.configuration;
        group = (ap (λ (n : Node P S). n.beacon.bgroup) e, ap (λ (n : Node P S). n.beacon.port) e);
        ports = (ap (λ (n : Node P S). n.passive_port) e, ap (λ (n : Node P S). n.secure_port) e);
        running = λ r. sym (ap (λ (n : Node P S). n.has_exited) e) ∙ r;
      }

  Lives-refl : (x : System P S) → IsSound x.node.process → Lives x x
  Lives-refl x v = record {
    sound = v;
    grows = omega arith;
    configuration = λ r. refl;
    group = (refl, refl);
    ports = (refl, refl);
    running = λ r. r;
  }

  Lives-trans : (x y z : System P S) → Lives x y → Lives y z → Lives x z
  Lives-trans x y z h k = record {
    sound = k.sound;
    grows = omega (arith, h.grows, k.grows);
    configuration = λ r. k.configuration r ∙ h.configuration (k.running r);
    group = (k.group.0 ∙ h.group.0, k.group.1 ∙ h.group.1);
    ports = (k.ports.0 ∙ h.ports.0, k.ports.1 ∙ h.ports.1);
    running = λ r. h.running (k.running r);
  }

  pulse_at-group :
      (later : ℕ) (b b' : Beacon) (p q : Process P S)
      → pulse_at later b p ≡ done (b', q)
      → (b'.bgroup ≡ b.bgroup) × (b'.port ≡ b.port)
  unfolding pulse_at
  pulse_at-group later b b' p q h =
      let (x, hx, h1) = >>=-eq-done (multicast_pulse b.bgroup b.port p) _ h in
      let same = sym (ap (λ (y : Beacon × Process P S). y.0) (done_injective h1)) in
      (ap (λ (y : Beacon). y.bgroup) same, ap (λ (y : Beacon). y.port) same)

  -- A round of the pulse changes times only.
  beat-group :
      (r : Round) (b b' : Beacon) (p q : Process P S)
      → beat r b p ≡ done (b', q)
      → (b'.bgroup ≡ b.bgroup) × (b'.port ≡ b.port)
  unfolding beat
  beat-group r b b' p q h = elim (Bool-cases (b.start_t == 0)) [
    | inl e ↦ pulse_at-group r.later b b' p q (ground (arith, h, e))
    | inr e ↦ elim (Bool-cases (gtb (elapsed r.now b.start_t) b.interval)) [
      | inl f ↦ pulse_at-group r.later (record b { end_t = r.now }) b' p q (ground (arith, h, e, f))
      | inr f ↦
          let same : b' ≡ record b { end_t = r.now } = ground (arith, h, e, f) in
          (ap (λ (y : Beacon). y.bgroup) same, ap (λ (y : Beacon). y.port) same)
    ]
  ]

  -- After any other signal than SIGINT the process has exited.
  exited_Lives :
      (x y : System P S)
      → IsSound x.node.process
      → y.node
        ≡ record (passive_listener_stop
            (record x.node { beacon = discovery_teardown x.node.beacon })) {
              process = record x.node.process { configuration = λ k. none };
              has_exited = true;
            }
      → Lives x y
  unfolding passive_listener_stop discovery_teardown
  exited_Lives x y v e =
      let p = x.node.process in
      let q : Process P S = record p { configuration = λ k. none } in
      let same : y.node.process ≡ q = ap (λ (n : Node P S). n.process) e in
      let over : y.node.has_exited ≡ true = ap (λ (n : Node P S). n.has_exited) e in
      record {
        sound = rw same (record {
          store = store-Agrees p q v.store refl (λ b h. refl) (omega arith);
          sessions = sessions-Agree p q v.sessions refl (λ b h. refl) (omega arith);
        });
        grows = let n = ap (λ (z : Process P S). z.next) same in omega arith;
        configuration = λ r. cc;
        group = (ap (λ (n : Node P S). n.beacon.bgroup) e, ap (λ (n : Node P S). n.beacon.port) e);
        ports = (ap (λ (n : Node P S). n.passive_port) e, ap (λ (n : Node P S). n.secure_port) e);
        running = λ r. cc;
      }

  signal-Lives :
      (sig : ℕ) (n : Node P S) (x y : System P S)
      → IsSound x.node.process
      → signal_callback sig x.node ≡ done n
      → y.node ≡ n
      → Lives x y
  unfolding signal_callback
  signal-Lives sig n x y v h e = elim (Bool-cases (sig == sigint)) [
    | inl f ↦
        let go : (on_interrupt x.node.process >>= λ p. done (record x.node { process = p }))
            ≡ done n =
          ground (arith, h, f) in
        let (p, hp, h1) =
          >>=-eq-done (on_interrupt x.node.process) (λ p. done (record x.node { process = p }))
            go in
        Keeps-Lives p x y (on_interrupt-Keeps x.node.process p v hp) (e ∙ sym (done_injective h1))
    | inr f ↦ exited_Lives x y v (e ∙ ground (arith, h, f))
  ]

  Step-Lives :
      (C : Crypto) (D : Cipher) (x y : System P S)
      → IsSound x.node.process
      → Step C D x y
      → Lives x y
  Step-Lives C D x y v (pulse r b p runs h e) =
      let k = beat-Keeps r x.node.beacon b x.node.process p v h in
      let (g, o) = beat-group r x.node.beacon b x.node.process p h in
      rw e (record {
        sound = k.sound;
        grows = k.grows;
        configuration = λ i. k.configuration;
        group = (g, o);
        ports = (refl, refl);
        running = λ i. i;
      })
  Step-Lives C D x y v (datagram msg len ip p h e) =
      Keeps-Lives p x y (multicast_listener-Keeps msg len ip x.node.process p v h)
        (ap (λ (z : System P S). z.node) e)
  Step-Lives C D x y v (message msg len d p h e) =
      Keeps-Lives p x y (passive_listener_callback-Keeps C msg len d x.node.process p v h)
        (ap (λ (z : System P S). z.node) e)
  Step-Lives C D x y v (text msg beyond shown h e) = rw e (Lives-refl x v)
  Step-Lives C D x y v (line k printed mode p h e) =
      Keeps-Lives p x y (user_input-Keeps C D x.mode mode k printed x.node.process p v h)
        (ap (λ (z : System P S). z.node) e)
  Step-Lives C D x y v (signal sig n h e) =
      signal-Lives sig n x y v h (ap (λ (z : System P S). z.node) e)

  -- Every state that is reached from one with a well-formed process: its process is well formed, and has
  -- the settings, the ports and the group of the pulse that it began with, the settings until it exits.
  pub Reach-Lives :
      (C : Crypto) (D : Cipher) (x y : System P S)
      → IsSound x.node.process
      → Reach C D x y
      → Lives x y
  Reach-Lives C D x y v here = Lives-refl x v
  Reach-Lives C D x z v (next {y} r runs st) =
      let first = Reach-Lives C D x y v r in
      Lives-trans x y z first (Step-Lives C D y z first.sound st)
