-- ===== src/UserInput/Start/Refused.antt =====
-- `user_start_session` of src/app/userinput.c where it makes no session.
use whisp.Prelude.{ℕ, ◌≡◌, ◌⊎◌, true, none, some}
use whisp.CString.{Bytes}
use whisp.Btree.{BTree}
use whisp.Process.{Process, peer_tree_compare, session_tree_compare}
use whisp.Peerstore.View.{peer_at}
use whisp.SessionControl.View.{listed_in}
use whisp.SessionControl.Between.{has_between}

module _ {P : BTree peer_tree_compare} {S : BTree session_tree_compare} where
  -- There is no peer with this GUID, or there is a session with it.
  abbrev pub Taken : Bytes → ℕ → Process P S → Type 0
  Taken guid local p =
      (peer_at p guid ≡ none)
      ⊎ ((foriegn : ℕ) × (peer_at p guid ≡ some foriegn)
          × (has_between local foriegn p.sessions (listed_in S p.session_tree) ≡ true))
