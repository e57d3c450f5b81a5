-- ===== src/UserInput/Conversation/Steps.antt =====
-- The second and the third packet of a handshake: `passive_listener_callback` (src/net/passive.c) of the
-- peer that started it and then of the other, after what they did before.
use whisp.Prelude.{ℕ, ◌+◌, ◌≡◌, refl, sym, true, false, Option, some, List, length}
use whisp.CString.{Bytes, CStr, pos, strcmp_eq, sprintf}
use whisp.Outcome.{done, set}
use whisp.Btree.{BTree}
use whisp.Process.{Process, Packet, peer_tree_compare, session_tree_compare, size_of_int}
use whisp.SessionControl.{session_generate_secret}
use whisp.Serialization.Sessions.{Wire, session_frame, wire_args}
use whisp.Serialization.Sessions.RoundTrip.{IsSendable, NamesBoth, Knows, Knows-SamePeers}
use whisp.Encryption.{Crypto, public, string_to_key, encrypt_message, decrypt_message}
use whisp.Authentication.{Draws}
use whisp.Authentication.Outgoing.{packet, Fits}
use whisp.Passive.{passive_listener_callback}
use whisp.Passive.Adopt.{Stands-Replaces}
use whisp.Passive.Agreement.{read_id, read_origin, moved, Ends, Addressed}
use whisp.Passive.Endings.{passive_listener_callback-Ends}
use whisp.Passive.Answer.{Answered}
use whisp.Passive.Sealing.{Sealed, seal, seal-IsShown, passive_listener_callback-Sealed}
use whisp.UserInput.Start.{fresh_id}
use whisp.UserInput.Start.Offer.{CanStart, Started, offer}
use whisp.UserInput.Conversation.{renamed, written, CanAnswer}

module _ {P : BTree peer_tree_compare} {S : BTree session_tree_compare} where
  -- The peer that started gets an answer `w` under the id of its session.
  pub replies :
      (C : Crypto) (d f : Draws) (guid : Bytes) (uuid : List ℕ) (w : Wire)
      (secret encrypted : Bytes) (p : Process P S) (h : CanStart guid uuid p)
      (st : Started C d guid uuid p h)
      → IsSendable w
      → w.state ≡ pos 5
      → w.id ≡ h.text
      → strcmp_eq guid h.names.own ≡ false
      → NamesBoth h.names.own guid w
      → strcmp_eq h.names.own w.origin ≡ true
      → session_generate_secret f.r f.l f.n ≡ done secret
      → encrypt_message C (string_to_key C w.foriegn_key public 0) secret f.elen
        ≡ done (some encrypted)
      → Fits
          (seal w h.local h.foriegn d.keypair encrypted p)
          p
          (renamed (read_id w p.next) (read_origin w p.next) h.names)
          (seal-IsShown w h.local h.foriegn (p.next + 1) d.keypair encrypted p)
      → Sealed C w f h.foriegn secret
          (packet
            (seal w h.local h.foriegn d.keypair encrypted p)
            p
            (renamed (read_id w p.next) (read_origin w p.next) h.names)
            (seal-IsShown w h.local h.foriegn (p.next + 1) d.keypair encrypted p))
          st.after
  replies C d f guid uuid w secret encrypted p h st sendable state same differ both mine drawn enc
        fits =
      let q = st.after in
      let knows : Knows h.names.own guid h.local h.foriegn p = record {
        valid = h.store;
        configured = h.names.has_guid;
        differ = differ;
        own_at = h.knows_own;
        other_at = h.knows_other;
      } in
      let names =
        moved (set h.local) (set h.foriegn) (set (read_id w q.next)) (set (read_origin w q.next))
          p.peers q.peers p.configuration q.configuration st.same_peers.peers
          st.same_peers.configuration (renamed (read_id w q.next) (read_origin w q.next) h.names) in
      let replaces =
        Stands-Replaces p.next (fresh_id h.text p) (read_id w q.next) h.names.origin_guid
          (offer C d guid uuid p h) q st.stands refl (sym same) h.names.is_origin_guid
          (record { secret = cc; foriegn_key = cc; local_key = cc }) cc in
      passive_listener_callback-Sealed C w h.names.own guid h.local h.foriegn p.next d.keypair
        (offer C d guid uuid p h) (fresh_id h.text p) f secret encrypted q names st.stands.valid
        sendable (Knows-SamePeers h.names.own guid h.local h.foriegn p q knows st.same_peers) both
        state replaces refl mine drawn enc fits

  -- The other peer, after its answer, gets the message `v` with the secret, which its keypair decrypts to
  -- a text or to NULL.
  pub agrees :
      (C : Crypto) (e f : Draws) (w v : Wire) (decrypted : Option Bytes) (letter : Packet)
      (q : Process P S) (b : CanAnswer w q) (ans : Answered C w e b.own_at b.other_at letter q)
      → IsSendable v
      → v.state ≡ pos 6
      → v.id ≡ w.id
      → NamesBoth b.own b.other v
      → strcmp_eq b.names.own v.origin ≡ false
      → ((at : ℕ)
          → decrypt_message C
              (set e.keypair)
              (set (record { at = at; text = v.secret }))
              (size_of_int v.secret_len)
            ≡ done decrypted)
      → (r : Process P S) × (passive_listener_callback C
            (sprintf session_frame (wire_args v))
            (length (sprintf session_frame (wire_args v)))
            f
            ans.after
          ≡ done r)
        × ((ends : Ends ans.after.next decrypted r) × Addressed b.other_at ends.session ans.after r)
        × (r.sent ≡ ans.after.sent)
  agrees C e f w v decrypted letter q b ans sendable state same both theirs opens =
      let r = ans.after in
      let k : CStr = read_id v r.next in
      let o : CStr = read_origin v r.next in
      let names =
        moved (set b.own_at) (set b.other_at) (set k) (set o) q.peers r.peers q.configuration
          r.configuration ans.same_peers.peers ans.same_peers.configuration (renamed k o b.names) in
      let replaces =
        Stands-Replaces q.next (read_id w q.next) k (read_origin w q.next) ans.session r ans.stands
          ans.named (sym same) ans.origin ans.readable
          (written ans.session.local_keypair e.keypair ans.keypair) in
      passive_listener_callback-Ends C v b.own b.other b.own_at b.other_at q.next e.keypair
        ans.session (read_id w q.next) f decrypted r names ans.stands.valid sendable
        (Knows-SamePeers b.own b.other b.own_at b.other_at q r b.knows ans.same_peers) both state
        replaces ans.keypair theirs (opens (r.next + 1))
