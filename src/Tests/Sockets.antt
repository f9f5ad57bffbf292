-- ===== src/Tests/Sockets.antt =====
-- The loops over a socket on concrete streams.
use go2_setup.Shared.{arith, ◌≡◌, true, [], ◌∷◌, some}
use go2_setup.Util.{bytes, interrupted, took, again, sys_readn, sys_writen}
use go2_setup.Util.Readn.{Returns, sys_readn_lem}
use go2_setup.Util.Writen.{sys_writen-IsWilling}

sys_readn_lem_example :
    Returns 3
      (1 ∷ 2 ∷ 3 ∷ 4 ∷ [])
      (sys_readn (bytes 1 [] ∷ interrupted ∷ bytes 2 (3 ∷ 4 ∷ []) ∷ []) 3)
sys_readn_lem_example = sys_readn_lem (bytes 1 [] ∷ interrupted ∷ bytes 2 (3 ∷ 4 ∷ []) ∷ []) 3 tt

sys_writen-IsWilling_example :
    sys_writen (took 0 ∷ again ∷ took 4 ∷ took 0 ∷ []) (1 ∷ 2 ∷ 3 ∷ [])
    ≡ (some true, 1 ∷ 2 ∷ 3 ∷ [])
sys_writen-IsWilling_example =
    sys_writen-IsWilling (took 0 ∷ again ∷ took 4 ∷ took 0 ∷ []) (1 ∷ 2 ∷ 3 ∷ []) tt (omega arith)
