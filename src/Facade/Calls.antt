-- ===== src/Facade/Calls.antt =====
-- Sequences of calls on the SDK against the same calls on PandarGeneral_Internal.
use go2_setup.Shared.{ℕ, ◌≡◌, refl, ap, ◌∙◌, List, [], ◌∷◌, Option, some}
use go2_setup.Wire.{Parsed, ok, rejected, fault, ◌>>=◌}
use go2_setup.Points.{Floats}
use go2_setup.Correction.{Numerals, Locals}
use go2_setup.Replay.{ScanPacket}
use go2_setup.Setup.{Text}
use go2_setup.Facade.{
  general_with, sdk_with, Internal, PandarGeneral, PandarGeneralSdk, internal_load, internal_reset,
  internal_push, general_load, general_reset, general_push, load_lidar_correction_file,
  reset_lidar_start_angle, sdk_push_scan_packet,
}

pub data Call : Type 0 where
  loads : Text → Call
  resets : ℕ → Call
  pushes : List ScanPacket → Call

module _ (F : Floats) (num : Numerals F) (locals : Locals F) (behind : List ℕ)
    (file : Option (List ℕ)) where
  abbrev pub call_sdk : PandarGeneralSdk F → Call → Parsed (PandarGeneralSdk F)
  call_sdk s (loads content) = load_lidar_correction_file F num locals behind file s content
  call_sdk s (resets angle) = reset_lidar_start_angle F num locals behind file s angle
  call_sdk s (pushes scan) = sdk_push_scan_packet F num locals behind file s scan

  abbrev pub call_internal : Internal F → Call → Parsed (Internal F)
  call_internal s (loads content) = internal_load F num locals behind file s content
  call_internal s (resets angle) = internal_reset F num locals behind file s angle
  call_internal s (pushes scan) = internal_push F num locals behind file s scan

  unfoldable pub call_all : PandarGeneralSdk F → List Call → Parsed (PandarGeneralSdk F)
  call_all s [] = ok s
  call_all s (c ∷ cs) = call_sdk s c >>= λ s'. call_all s' cs

  unfoldable pub call_all_internal : Internal F → List Call → Parsed (Internal F)
  call_all_internal s [] = ok s
  call_all_internal s (c ∷ cs) = call_internal s c >>= λ s'. call_all_internal s' cs

  -- An SDK as its constructor makes it, around an internal object.
  abbrev pub around : Text → Internal F → PandarGeneralSdk F
  around content i = record {
    pandar_general = some (record { internal = some i });
    correction_content = content;
  }

  abbrev pub lifted : Text → Parsed (Internal F) → Parsed (PandarGeneralSdk F)
  lifted content o = o >>= λ i. ok (around content i)

  -- Both pointers in turn.
  passed_on :
      (content : Text) (i : Internal F) (o : Parsed (Internal F))
      → (((o >>= λ (b : Internal F). ok (some b)) >>= general_with F num locals behind file)
            >>= λ (g : PandarGeneral F). ok (some g))
          >>= sdk_with F num locals behind file (around content i)
        ≡ lifted content o
  passed_on content i (ok b) = refl
  passed_on content i rejected = refl
  passed_on content i fault = refl

  call_sdk-around :
      (content : Text) (i : Internal F) (c : Call)
      → call_sdk (around content i) c ≡ lifted content (call_internal i c)
  unfolding load_lidar_correction_file reset_lidar_start_angle sdk_push_scan_packet general_load
      general_reset general_push
  call_sdk-around content i (loads text) =
      passed_on content i (internal_load F num locals behind file i text)
  call_sdk-around content i (resets angle) =
      passed_on content i (internal_reset F num locals behind file i angle)
  call_sdk-around content i (pushes scan) =
      passed_on content i (internal_push F num locals behind file i scan)

  lifted-bind :
      (content : Text) (o : Parsed (Internal F))
      (k : PandarGeneralSdk F → Parsed (PandarGeneralSdk F)) (k' : Internal F → Parsed (Internal F))
      → ((i : Internal F) → k (around content i) ≡ lifted content (k' i))
      → (lifted content o >>= k) ≡ lifted content (o >>= k')
  lifted-bind content (ok i) k k' h = h i
  lifted-bind content rejected k k' h = refl
  lifted-bind content fault k k' h = refl

  -- On an SDK that was made around an internal object, any calls that load a correction, set the
  -- start angle or push scans come to the same result or fault as the same calls on that object,
  -- and keep the correction text.
  call_all-around :
      (content : Text) (i : Internal F) (cs : List Call)
      → call_all (around content i) cs ≡ lifted content (call_all_internal i cs)
  unfolding call_all call_all_internal
  call_all-around content i [] = refl
  call_all-around content i (c ∷ cs) =
      ap (λ (o : Parsed (PandarGeneralSdk F)). o >>= λ s'. call_all s' cs)
        (call_sdk-around content i c)
      ∙ lifted-bind content (call_internal i c) (λ s'. call_all s' cs)
          (λ i'. call_all_internal i' cs) (λ i'. call_all-around content i' cs)
