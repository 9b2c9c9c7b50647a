-- ===== src/Address.antt =====
-- The host and the port of a destination, as `isP2P` of internal/policy/service.go and `Blocked` of
-- internal/compliance/service.go both read them.
use rmvpn.Base.{Option, none, some, []}
use rmvpn.Base.Int.{ℤ}
use rmvpn.Base.Text.{Runes, codes, split_host_port, to_lower, trim_suffix, atoi}

-- On an error of SplitHostPort the whole address is the host, and the port's text is empty.
abbrev pub host_and_port : Runes → Option (Runes × Runes) → Runes × Runes
host_and_port address none = (address, [])
host_and_port address (some parts) = parts

unfoldable pub host_of : Runes → Runes
unfolding split_host_port to_lower trim_suffix
host_of address =
    to_lower (trim_suffix (host_and_port address (split_host_port address)).0 (codes "."))

unfoldable pub port_of : Runes → ℤ
unfolding split_host_port atoi
port_of address = atoi (host_and_port address (split_host_port address)).1
