-- ===== src/Frame.antt =====
-- Where `ProcessLiarPacket` of pandarGeneral_internal.cc cuts the stream of blocks into frames, and
-- the two buffers that the points of a frame collect in (`PointCloudList`, `PointCloud`).
-- Points, raw packets and the correction packet of `SaveCorrectionFile` are parameters.
pub mod Crossing
pub mod Conservation
pub mod Modes
pub mod Cutter
pub mod Silent
pub mod Stamp
pub mod Overrun
use go2_setup.Wire.{Parsed, ok, fault}
use go2_setup.Shared.{
  ℕ, zero, suc, ◌+◌, ◌-◌, Bool, true, false, not, ◌&&◌, ◌||◌, List, [], ◌∷◌, ◌++◌, ltb, leb, ◌==◌,
  if◌then◌else◌, update,
}

-- `azimuthGap`, which a step back leaves at 0.
unfoldable pub azimuth_gap : ℕ → ℕ → ℕ
azimuth_gap last azimuth = if ltb azimuth last then 0 else azimuth - last

-- The two nested tests before a frame is emitted: `last` is `last_azimuth_`, `start` `start_angle_`.
unfoldable pub crosses : ℕ → ℕ → ℕ → Bool
unfolding azimuth_gap
crosses start last azimuth =
    not (last == azimuth)
    && ltb (azimuth_gap last azimuth) 600
    && (ltb azimuth last && leb start azimuth || ltb last start && leb start azimuth)

-- The elements of `PointCloud`, `MAX_POINT_CLOUD_NUM`.
abbrev pub max_point_cloud_num : ℕ
max_point_cloud_num = 1000000

-- `cloud` is the vector `PointCloud`, of which the first `index` elements are in use; `lists` is
-- `PointCloudList`, a list for each laser; `out_msg` is the cloud that goes to the callback. `overrun`
-- says that a write has gone past the end of `PointCloud`: the source does not test for it, and the
-- state is then no longer the program's.
pub record Clouds (P : Type 0) : Type 0 where
  pub lists : ℕ → List P
  pub cloud : ℕ → P
  pub index : ℕ
  pub out_msg : List P
  pub overrun : Bool

-- What a call of `pcl_callback_` is given. The source also reads `points[0].timestamp`, which is
-- there only if `points` is not empty.
pub record Emission (P R : Type 0) : Type 0 where
  pub points : List P
  pub packets : List R

-- The state of the processing thread that lasts from block to block; `emitted` is what the callback
-- was given so far, newest last.
pub record Framer (P R : Type 0) : Type 0 where
  pub last_azimuth : ℕ
  pub clouds : Clouds P
  pub scan : List R
  pub emitted : List (Emission P R)

module _ {P : Type 0} where
  -- `if (pcl_type_) PointCloudList[i].push_back(point); else PointCloud[iPointCloudIndex++] = point;`
  unfoldable pub add_point : Bool → Clouds P → ℕ × P → Clouds P
  add_point structured c (ring, p) =
      if structured
      then record c { lists = update c.lists ring (c.lists ring ++ (p ∷ [])) }
      else record c {
        cloud = update c.cloud c.index p;
        index = c.index + 1;
        overrun = c.overrun || leb max_point_cloud_num c.index;
      }

  -- The same in `CalcQTPointXYZIT`, where the `else` has no braces: the index goes up in any case.
  unfoldable pub add_point_qt : Bool → Clouds P → ℕ × P → Clouds P
  add_point_qt structured c (ring, p) =
      if structured
      then record c { lists = update c.lists ring (c.lists ring ++ (p ∷ [])); index = c.index + 1 }
      else record c {
        cloud = update c.cloud c.index p;
        index = c.index + 1;
        overrun = c.overrun || leb max_point_cloud_num c.index;
      }

  unfoldable pub add_points : (Clouds P → ℕ × P → Clouds P) → Clouds P → List (ℕ × P) → Clouds P
  add_points add c [] = c
  add_points add c (p ∷ ps) = add_points add (add c p) ps

  -- `[PointCloud.begin(), PointCloud.begin() + n)`
  abbrev pub first_of : (ℕ → P) → ℕ → List P
  first_of f zero = []
  first_of f (suc n) = first_of f n ++ (f n ∷ [])

  -- The lists of the first `n` lasers, one after the other.
  abbrev pub joined : (ℕ → List P) → ℕ → List P
  joined f zero = []
  joined f (suc n) = joined f n ++ f n

  abbrev pub cleared : (ℕ → List P) → ℕ → ℕ → List P
  cleared f n r = if ltb r n then [] else f r

  -- `EmitBackMessege`: the cloud that the callback is given, and the buffers after it.
  unfoldable pub emit_back_message : Bool → ℕ → Clouds P → List P × Clouds P
  emit_back_message structured lasers c =
      if structured
      then (let out = c.out_msg ++ joined c.lists lasers in
          (
            out,
            record c { lists = cleared c.lists lasers; out_msg = if ltb 0 lasers then [] else out },
          ))
      else (let out = first_of c.cloud c.index in (out, record c { out_msg = out; index = 0 }))

abbrev pub is_empty : {A : Type 0} → List A → Bool
is_empty [] = true
is_empty (x ∷ xs) = false

module _ {P R : Type 0} (has_callback : Bool) (start : ℕ) where
  -- The tests around the call of `EmitBackMessege`.
  unfoldable pub frame_ends : Framer P R → ℕ → Bool
  frame_ends s azimuth =
      crosses start s.last_azimuth azimuth
      && has_callback
      && (ltb 0 s.clouds.index || not (is_empty (s.clouds.lists 0)))

-- `correction` is what `SaveCorrectionFile` returns for the number of lasers.
module _ {P R : Type 0} (structured has_callback : Bool) (start : ℕ) (correction : ℕ → R) where
  -- The body of the loop over blocks; `add` is the end of the format's `Calc…PointXYZIT`, and `points`
  -- are the points of the block.
  unfoldable pub process_block :
      (Clouds P → ℕ × P → Clouds P) → ℕ → Framer P R → ℕ × List (ℕ × P) → Framer P R
  process_block add lasers s (azimuth, points) =
      let (out, after) = emit_back_message structured lasers s.clouds in
      if frame_ends has_callback start s azimuth
      then record {
        last_azimuth = azimuth;
        clouds = add_points add after points;
        scan = [];
        emitted =
            s.emitted
            ++ (record { points = out; packets = s.scan ++ (correction lasers ∷ []) } ∷ []);
      }
      else record s { last_azimuth = azimuth; clouds = add_points add s.clouds points }

  unfoldable pub process_blocks :
      (Clouds P → ℕ × P → Clouds P) → ℕ → Framer P R → List (ℕ × List (ℕ × P)) → Framer P R
  process_blocks add lasers s [] = s
  process_blocks add lasers s (b ∷ bs) = process_blocks add lasers (process_block add lasers s b) bs

  -- A packet that was parsed: it joins the scan, and then its blocks are gone through.
  unfoldable pub process_packet :
      (Clouds P → ℕ × P → Clouds P) → ℕ → Framer P R → R → List (ℕ × List (ℕ × P)) → Framer P R
  process_packet add lasers s raw blocks =
      process_blocks add lasers (record s { scan = s.scan ++ (raw ∷ []) }) blocks

-- The state, if all writes stayed in `PointCloud`.
abbrev pub unless_overrun : {P R : Type 0} → Framer P R → Parsed (Framer P R)
unless_overrun s = if s.clouds.overrun then fault else ok s
