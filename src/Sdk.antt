-- ===== src/Sdk.antt =====
-- `GetCalibrationFromDevice` of pandarGeneral_sdk.cc, the thread that gets the table of angles from the
-- lidar, or else from a file. The server and the file are arguments.
pub mod Calibration
use go2_setup.Shared.{
  ℕ, Bool, true, false, List, [], ◌∷◌, ◌++◌, Option, none, some, ◌==◌, if◌then◌else◌,
}
use go2_setup.Wire.{Parsed, ok, rejected, fault, present, ◌>>=◌, ◌>>◌}
use go2_setup.Points.{Floats}
use go2_setup.Correction.{Numerals, Locals, AngleTable, load_correction_file}
use go2_setup.Replay.{c_text, Replay, load_text}
use go2_setup.Tcp.{Server, get_lidar_calibration}

module _ (F : Floats) where
  -- `pandarGeneral_` and `correction_content_`.
  pub record Sdk : Type 0 where
    pub general : Replay F
    pub content : List ℕ

  abbrev pub corrected : Sdk → List ℕ → AngleTable F → Sdk
  corrected s content t = record {
    general = record s.general { table = t; got_correction = true };
    content = content;
  }

-- `behind` is the memory behind the buffer that a text was copied into.
module _ (F : Floats) (num : Numerals F) (locals : Locals F) (behind : List ℕ)
    (file : Option (List ℕ)) where
  -- `LoadCorrectionFile` always returns 0, so what follows its success is always done.
  unfoldable pub load_reply : Sdk F → List ℕ → Parsed (Sdk F)
  load_reply s buffer = do
    text ← present (c_text (buffer ++ behind))
    t ← load_correction_file F num locals text s.general.table
    ok (corrected F s text t)

  -- After `ret == 0 && buffer`.
  unfoldable pub take_reply : Sdk F → ℕ × Option (List ℕ × ℕ) → Parsed (Sdk F)
  take_reply s (code, none) = ok s
  take_reply s (code, some (buffer, len)) = if code == 0 then load_reply s buffer else ok s

  -- The file `correction_file_path_`, none if it does not open, unless the flag is set.
  unfoldable pub load_local : Option (List ℕ) → Sdk F → Parsed (Sdk F)
  load_local none s = ok s
  load_local (some bytes) s =
      if s.general.got_correction
      then ok s
      else (load_text F num locals behind file bytes s.general.table >>= λ t.
          ok (corrected F s s.content t))

  -- `connected` says that `tcp_command_client_` is not null.
  unfoldable pub get_calibration_from_device : Bool → Server → Sdk F → Parsed (Sdk F)
  get_calibration_from_device connected v s =
      if connected
      then (present (get_lidar_calibration true v) >>= λ answer.
          (take_reply s answer >>= load_local file))
      else ok s
