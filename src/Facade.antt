-- ===== src/Facade.antt =====
-- What a client calls on the SDK: PandarGeneralSDK (pandarGeneral_sdk.cc) and PandarGeneral
-- (pandarGeneral.cc), which pass the calls on to PandarGeneral_Internal through one pointer each.
pub mod Calls
use go2_setup.Shared.{ℕ, Bool, List, [], ◌∷◌, Option, none, some}
use go2_setup.Wire.{Parsed, ok, rejected, fault, ◌>>=◌}
use go2_setup.Points.{Floats}
use go2_setup.Correction.{Numerals, Locals, load_correction_file}
use go2_setup.Replay.{ScanPacket, Replay, push_scan_packet}
use go2_setup.Setup.{Text}

module _ (F : Floats) where
  -- The members of `PandarGeneral_Internal` that these calls touch.
  pub record Internal : Type 0 where
    pub start_angle : ℕ
    pub replay : Replay F

  -- `PandarGeneral` with `internal_`, and `PandarGeneralSDK` with `pandarGeneral_`; a null pointer is
  -- none.
  pub record PandarGeneral : Type 0 where
    pub internal : Option Internal

  pub record PandarGeneralSdk : Type 0 where
    pub pandar_general : Option PandarGeneral
    pub correction_content : Text

module _ (F : Floats) (num : Numerals F) (locals : Locals F) (behind : List ℕ)
    (file : Option (List ℕ)) where
  -- The three operations of `PandarGeneral_Internal`.
  unfoldable pub internal_load : Internal F → Text → Parsed (Internal F)
  internal_load s content = do
    t ← load_correction_file F num locals content s.replay.table
    ok (record s { replay = record s.replay { table = t } })

  unfoldable pub internal_reset : Internal F → ℕ → Parsed (Internal F)
  internal_reset s start_angle = ok (record s { start_angle = start_angle })

  unfoldable pub internal_push : Internal F → List ScanPacket → Parsed (Internal F)
  internal_push s scan = do
    r ← push_scan_packet F num locals behind file s.replay scan
    ok (record s { replay = r })

  -- A call through a pointer that is not tested.
  abbrev pub through : {A : Type 0} → (A → Parsed A) → Option A → Parsed (Option A)
  through f none = fault
  through f (some a) = f a >>= λ b. ok (some b)

  -- A call behind a test of the pointer.
  abbrev pub if_given : {A : Type 0} → (A → Parsed A) → Option A → Parsed (Option A)
  if_given f none = ok none
  if_given f (some a) = f a >>= λ b. ok (some b)

  abbrev pub general_with : Option (Internal F) → Parsed (PandarGeneral F)
  general_with i = ok (record { internal = i })

  -- `PandarGeneral`
  unfoldable pub general_load : Text → PandarGeneral F → Parsed (PandarGeneral F)
  general_load content g = through (λ s. internal_load s content) g.internal >>= general_with

  unfoldable pub general_reset : ℕ → PandarGeneral F → Parsed (PandarGeneral F)
  general_reset start_angle g =
      through (λ s. internal_reset s start_angle) g.internal >>= general_with

  unfoldable pub general_push : List ScanPacket → PandarGeneral F → Parsed (PandarGeneral F)
  general_push scan g = if_given (λ s. internal_push s scan) g.internal >>= general_with

  abbrev pub sdk_with : PandarGeneralSdk F → Option (PandarGeneral F) → Parsed (PandarGeneralSdk F)
  sdk_with s g = ok (record s { pandar_general = g })

  -- `PandarGeneralSDK`
  unfoldable pub load_lidar_correction_file :
      PandarGeneralSdk F → Text → Parsed (PandarGeneralSdk F)
  load_lidar_correction_file s content =
      through (general_load content) s.pandar_general >>= sdk_with s

  unfoldable pub reset_lidar_start_angle : PandarGeneralSdk F → ℕ → Parsed (PandarGeneralSdk F)
  reset_lidar_start_angle s start_angle =
      if_given (general_reset start_angle) s.pandar_general >>= sdk_with s

  unfoldable pub sdk_push_scan_packet :
      PandarGeneralSdk F → List ScanPacket → Parsed (PandarGeneralSdk F)
  sdk_push_scan_packet s scan = if_given (general_push scan) s.pandar_general >>= sdk_with s

  unfoldable pub get_lidar_calibration_text : PandarGeneralSdk F → Text
  get_lidar_calibration_text s = s.correction_content
