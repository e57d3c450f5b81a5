-- ===== src/App.antt =====
-- src/app/app.c: the settings that a process makes for itself when it starts.
--
-- The settings are a `jnx_hashmap` of texts, which `jnx_hash_get` and `jnx_hash_put` read and write by
-- key. What is random is an argument, and so is what the system says of the network interfaces.
-- `print_welcome` prints a fixed text, and the two functions on OpenSSL only call it.
pub mod Ports
use whisp.Prelude.{
  ℕ, ◌+◌, ◌-◌, ◌%◌, ◌^◌, ◌==◌, Bool, true, false, Option, none, some, List, [], ◌∷◌, if◌then◌else◌,
}
use whisp.CString.{Bytes, ℤ, codes, strcmp_eq, sprintf, show_int, int32}
use whisp.Outcome.{Outcome, done, fault, undefined, check_failed, ◌>>=◌, ◌>>◌}
use whisp.Serialization.{show_str}
use whisp.SessionControl.{id_loop}

abbrev pub Settings : Type 0
Settings = Bytes → Option Bytes

-- `jnx_hash_put`
abbrev pub put : Bytes → Bytes → Settings → Settings
put key value config k = if strcmp_eq k key then some value else config k

-- `JNXCHECK` of what `jnx_hash_get` returns, and its use.
abbrev pub required : Option Bytes → Outcome Bytes
required none = fault check_failed
required (some v) = done v

-- What is printed for the keys that `jnx_hash_get_keys` returns.
unfoldable pub print_config : List Bytes → Settings → List Bytes
print_config [] config = []
print_config (k ∷ ks) config =
    sprintf (codes "KEY:%s VALUE:%s\n") (k ∷ show_str (config k) ∷ []) ∷ print_config ks config

-- `interface_ip` is `jnx_network_interface_to_string`: the address of an interface, for AF_INET6 or
-- for AF_INET; none is NULL.
unfoldable pub resolve_interface_address :
    (Bytes → Bool → Option Bytes) → Settings → Outcome Settings
resolve_interface_address interface_ip config = do
  af ← required (config (codes "ADDFAMILY"))
  interface ← required (config (codes "INTERFACE"))
  ip ← required (interface_ip interface (strcmp_eq af (codes "AF_INET6")))
  done (put (codes "IP") ip config)

-- `g` is the UUID. The loop is the one of `session_generate_id`.
unfoldable pub generate_guid : List ℕ → Settings → Outcome Settings
generate_guid g config = do buffer ← id_loop [] g; done (put (codes "GUID") buffer config)

-- `base_random` is what `rand` returns; the arithmetic is that of `unsigned int`, and a range of all
-- its numbers divides by zero.
unfoldable pub random_in_range : ℕ → ℕ → ℕ → Outcome ℤ
random_in_range base_random min max =
    let width = (max + 2 ^ 32 - min + 1) % 2 ^ 32 in
    if width == 0 then fault undefined else done (int32 (min + base_random % width))

-- `a` and `b` are what `rand` returns. A number has at most eleven characters, so both buffers of 56
-- are large enough.
unfoldable pub generate_ports : ℕ → ℕ → Settings → Outcome Settings
generate_ports a b config = do
  r ← random_in_range a 49152 65535
  s ← random_in_range b 41390 51952
  done (put (codes "SECUREPORT") (show_int s) (put (codes "TPORT") (show_int r) config))
