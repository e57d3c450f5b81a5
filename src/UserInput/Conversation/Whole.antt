-- ===== src/UserInput/Conversation/Whole.antt =====
-- A whole handshake between two processes, from `user_start_session` (src/app/userinput.c) of one over
-- three packets to connected sessions of both.
use whisp.Prelude.{ℕ, ◌+◌, ◌≡◌, refl, sym, ap, ◌∙◌, true, false, Option, some, List, ◌∷◌, length}
use whisp.CString.{Bytes, strcmp_eq, int32}
use whisp.Outcome.{done, set}
use whisp.Btree.{BTree}
use whisp.Process.{Process, Packet, peer_tree_compare, session_tree_compare, size_of_int}
use whisp.SessionControl.{session_generate_secret}
use whisp.Serialization.Sessions.RoundTrip.{NamesBoth}
use whisp.Encryption.{
  Crypto, public, key_to_string, string_to_key, encrypt_message, decrypt_message,
}
use whisp.Authentication.{Draws}
use whisp.Authentication.Outgoing.{packet}
use whisp.Passive.{passive_listener_callback}
use whisp.Passive.Agreement.{read_id, read_origin, Agreed, Ends, Addressed, moved_Addressed}
use whisp.Passive.Answer.{answer, answer-IsShown, passive_listener_callback-Answered}
use whisp.Passive.Sealing.{seal, seal-IsShown}
use whisp.UserInput.{user_start_session}
use whisp.UserInput.Start.{fresh_id}
use whisp.UserInput.Start.Offer.{CanStart, offer, offer-IsShown, user_start_session-Started}
use whisp.UserInput.Conversation.{
  renamed, set-text, first_wire, CanAnswer, second_wire, third_wire, Letters,
}
use whisp.UserInput.Conversation.Steps.{replies, agrees}

module _ {P : BTree peer_tree_compare} {S : BTree session_tree_compare} where
  -- Both processes after the three packets of a handshake; the origin's other peer is at `x`, the
  -- partner's at `y`, and both are as they were before.
  pub record Conversed (C : Crypto) (d e f g : Draws) (guid : Bytes) (uuid : List ℕ)
      (secret : Bytes) (decrypted : Option Bytes) (x y : ℕ) (p q : Process P S) : Type 0 where
    pub first : Packet
    pub second : Packet
    pub third : Packet
    pub starts : Process P S
    pub answers : Process P S
    pub seals : Process P S
    pub opens : Process P S
    pub started : user_start_session C guid uuid d p ≡ done starts
    pub first_sent : starts.sent ≡ first ∷ p.sent
    pub answered :
        passive_listener_callback C first.payload (length first.payload) e q ≡ done answers
    pub second_sent : answers.sent ≡ second ∷ q.sent
    pub sealed :
        passive_listener_callback C second.payload (length second.payload) f starts ≡ done seals
    pub third_sent : seals.sent ≡ third ∷ starts.sent
    pub opened :
        passive_listener_callback C third.payload (length third.payload) g answers ≡ done opens
    pub no_more : opens.sent ≡ answers.sent
    pub origin_agrees : Agreed starts.next secret seals
    pub origin_reaches : Addressed x origin_agrees.session p seals
    pub partner_ends : Ends answers.next decrypted opens
    pub partner_reaches : Addressed y partner_ends.session q opens

  -- A handshake between two processes that know each other and have no session between them: the user of
  -- the one starts it, and over three packets, with none after them, both come to connected sessions that
  -- they listen for: the first under the secret that it has drawn, the other with what the keypair that
  -- it drew decrypts of that secret, which is the same secret where the keypair opens it and NULL where
  -- the decryption fails. No check stops either of them.
  -- The conditions: the decimals of the UUID have at most 23 digits, which is so of few random UUIDs (the
  -- buffer of the id overflows otherwise), and no session has that id; the sessions of the first have both
  -- peers written; the two GUIDs differ; and the texts of the three messages are words that fit the
  -- buffer.
  pub user_start_session-Conversed :
      (C : Crypto) (d e f g : Draws) (guid : Bytes) (uuid : List ℕ) (secret encrypted : Bytes)
      (decrypted : Option Bytes) (p q : Process P S) (h : CanStart guid uuid p)
      (b : CanAnswer (first_wire C d guid uuid p h) q)
      → strcmp_eq guid h.names.own ≡ false
      → NamesBoth h.names.own guid (second_wire C e (first_wire C d guid uuid p h) q b)
      → Letters C d e guid uuid encrypted p q h b
      → session_generate_secret f.r f.l f.n ≡ done secret
      → encrypt_message C
          (string_to_key C (key_to_string C e.keypair public e.slack) public 0)
          secret
          f.elen
        ≡ done (some encrypted)
      → ((at : ℕ)
          → decrypt_message C
              (set e.keypair)
              (set (record { at = at; text = encrypted }))
              (size_of_int (int32 (length encrypted)))
            ≡ done decrypted)
      → Conversed C d e f g guid uuid secret decrypted h.foriegn b.other_at p q
  user_start_session-Conversed C d e f g guid uuid secret encrypted decrypted p q h b differ both l
        drawn enc opens =
      let w = first_wire C d guid uuid p h in
      let v = second_wire C e w q b in
      let u = third_wire d guid uuid encrypted v p h in
      let st = user_start_session-Started C d guid uuid p h l.first_fits in
      let ans =
        passive_listener_callback-Answered C w b.own b.other b.own_at b.other_at e q b.names
          b.sessions l.first_words b.knows b.both refl b.new l.second_fits in
      let same : u.id ≡ w.id = sym (set-text (read_id w q.next) b.names.session_id b.names.is_id) in
      let id : v.id ≡ h.text =
        same ∙ sym (set-text (fresh_id h.text p) h.names.session_id h.names.is_id) in
      let origin =
        sym (set-text (read_origin w q.next) b.names.origin_guid b.names.is_origin_guid) in
      let mine : strcmp_eq h.names.own v.origin ≡ true =
        ap (λ t. strcmp_eq h.names.own t) origin ∙ h.mine in
      let sl =
        replies C d f guid uuid v secret encrypted p h st l.second_words refl id differ both mine
          drawn enc l.third_fits in
      let (r, ran, ends, quiet) =
        agrees C e g w u decrypted _ q b ans l.third_words refl same b.both b.theirs opens in
      record {
        first = packet (offer C d guid uuid p h) p h.names (offer-IsShown C d guid uuid p h);
        second =
            packet (answer C w b.own_at b.other_at e q) q b.names
              (answer-IsShown C w b.own_at b.other_at (q.next + 1) e q);
        third =
            packet (seal v h.local h.foriegn d.keypair encrypted p) p
              (renamed (read_id v p.next) (read_origin v p.next) h.names)
              (seal-IsShown v h.local h.foriegn (p.next + 1) d.keypair encrypted p);
        starts = st.after;
        answers = ans.after;
        seals = sl.after;
        opens = r;
        started = st.ran;
        first_sent = st.sent_after;
        answered = ans.ran;
        second_sent = ans.sent;
        sealed = sl.ran;
        third_sent = sl.sent;
        opened = ran;
        no_more = quiet;
        origin_agrees = sl.agreed;
        origin_reaches =
            moved_Addressed h.foriegn sl.agreed.session p st.after sl.after st.same_peers.peers
              st.same_peers.configuration sl.addressed;
        partner_ends = ends.0;
        partner_reaches =
            moved_Addressed b.other_at ends.0.session q ans.after r ans.same_peers.peers
              ans.same_peers.configuration ends.1;
      }
