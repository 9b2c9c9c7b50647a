-- ===== src/Policy/Torrent.antt =====
-- internal/policy/service.go, `isP2P`: BitTorrent by host, port and first payload.
use rmvpn.Base.{◌≡◌, refl, Bool, true, false, ◌&&◌, ◌||◌, [], ◌∷◌}
use rmvpn.Base.Int.{ℤ, pos, leb_ℤ}
use rmvpn.Base.Text.{Runes, codes, has_part, has_prefix}
use rmvpn.Address.{host_of, port_of}

abbrev eq_ℤ : ℤ → ℤ → Bool
eq_ℤ a b = leb_ℤ a b && leb_ℤ b a

unfoldable pub torrent_port : ℤ → Bool
torrent_port port =
    (leb_ℤ (pos 6881) port && leb_ℤ port (pos 6889))
    || eq_ℤ port (pos 51413)
    || eq_ℤ port (pos 6969)

unfoldable pub torrent_payload : Runes → Bool
unfolding has_part
torrent_payload payload =
    has_prefix payload (0x13 ∷ codes "BitTorrent protocol")
    || has_part payload (codes "announce_peer")
    || has_part payload (codes "find_node")

unfoldable pub is_p2p : Runes → Runes → Bool
unfolding host_of port_of torrent_port torrent_payload has_part
is_p2p address payload =
    has_part (host_of address) (codes "tracker")
    || has_part (host_of address) (codes "announce")
    || torrent_port (port_of address)
    || torrent_payload payload

tracker_by_name : is_p2p (codes "Tracker.Example.org.:443") [] ≡ true
unfolding is_p2p
tracker_by_name = refl

web_is_not_p2p : is_p2p (codes "example.org:443") (codes "GET /") ≡ false
unfolding is_p2p
web_is_not_p2p = refl
