-- ===== src/Driver/Routing.antt =====
-- Which packets reach which parser.
use go2_setup.Shared.{ℕ, ◌+◌, ◌≡◌, true, some, arith, ◌⊎◌}
use go2_setup.Wire.{Layout, contains}
use go2_setup.Wire.Formats.{l64, l20, qt, xt}
use go2_setup.Wire.Pandar40.{packet_size, seq_num_size}
use go2_setup.Driver.{
  LidarType, pandar20a, pandar20b, xt_any, xt32, xt16, xtm, other, Format, pandar40, pandar64,
  pandar20, pandar_qt, pandar_xt, headed, Headed, is_xt_packet, route,
}

abbrev pub layout_of : Headed → Layout
layout_of pandar64 = l64
layout_of pandar20 = l20
layout_of pandar_qt = qt
layout_of pandar_xt = xt

-- The parser of a format accepts the size.
abbrev pub Accepts : Format → ℕ → Type 0
Accepts pandar40 size = (size ≡ packet_size) ⊎ (size ≡ packet_size + seq_num_size)
Accepts (headed f) size = contains (layout_of f).sizes size ≡ true

is_xt_packet-size :
    (type : LidarType) (size : ℕ) → is_xt_packet type size ≡ true → contains xt.sizes size ≡ true
unfolding is_xt_packet contains
is_xt_packet-size xt_any size h = ground arith
is_xt_packet-size xt32 size h = ground arith
is_xt_packet-size xt16 size h = ground arith
is_xt_packet-size xtm size h = ground arith
is_xt_packet-size pandar20a size h = cc
is_xt_packet-size pandar20b size h = cc
is_xt_packet-size other size h = cc

-- Whatever the lidar's type, a packet goes only to a parser that accepts its size.
pub route-Accepts :
    (type : LidarType) (size : ℕ) (f : Format) → route type size ≡ some f → Accepts f size
unfolding route contains
route-Accepts type size pandar40 h = ground arith
route-Accepts type size (headed pandar64) h = ground arith
route-Accepts type size (headed pandar20) h = ground arith
route-Accepts type size (headed pandar_qt) h = ground arith
route-Accepts type size (headed pandar_xt) h = ground (arith, is_xt_packet-size type size)
