-- ===== src/Node/Startup.antt =====
-- Where the table of angles comes from when a capture is played or the lidar does not answer.
use go2_setup.Shared.{
  ℕ, ◌≤◌, ◌≡◌, ◌≢◌, refl, ◌∙◌, Bool, true, false, List, ◌∷◌, ◌++◌, Option, none, some,
}
use go2_setup.Wire.{ok}
use go2_setup.Points.{Floats}
use go2_setup.Correction.{Numerals, Locals, AngleTable, lines_of, correction_content}
use go2_setup.Correction.RoundTrip.{PrintsFields, EndsShort, IsReread, load_correction_file-save}
use go2_setup.Replay.{load_text}
use go2_setup.Replay.Saved.{NoNull, content-NoNull, load_text-append}
use go2_setup.Tcp.{Server, get_lidar_calibration}
use go2_setup.Sdk.{Sdk, corrected, take_reply, load_local, get_calibration_from_device}
use go2_setup.Node.{Mode, capture, bag, live, load_before, timer_callback}

-- The command fails, with this code.
abbrev pub Fails : Server → ℕ → Type 0
Fails v code = get_lidar_calibration true v ≡ some (code, none)

abbrev pub is_live : Mode → Bool
is_live capture = false
is_live bag = false
is_live live = true

module _ (F : Floats) (num : Numerals F) (locals : Locals F) (behind : List ℕ) (t : AngleTable F)
    (n : ℕ) where
  abbrev pub saved_file : Option (List ℕ)
  saved_file = some (correction_content F num t n)

  load_text-saved :
      (before : AngleTable F) (garbage more : List ℕ)
      → PrintsFields F num
      → n ≤ 64
      → behind ≡ garbage ++ (0 ∷ more)
      → NoNull garbage
      → EndsShort (lines_of garbage)
      → (after : AngleTable F) × (load_text F num locals behind saved_file
            (correction_content F num t n)
            before
          ≡ ok after)
        × IsReread F num locals t before after n
  load_text-saved before garbage more h room b k short =
      let (after, l, q) = load_correction_file-save F num locals t before n garbage h room short in
      (
        after,
        load_text-append F num locals behind saved_file (correction_content F num t n) garbage more
              before (content-NoNull F num t n h) k b
            ∙ l,
        q,
      )

  -- For a capture, or for a lidar whose command fails before the flag is set, with a correction
  -- file that holds the text that `SaveCorrectionFile` writes for at most 64 lasers: the node
  -- starts without a fault, the table is that of the file, each number as it reads back, and the
  -- flag is set for the lidar and not for the capture. Numbers print as fields without commas, line
  -- ends and null bytes, an `int` reads back, and the memory behind the buffer has a null byte,
  -- with a line of less than 5 characters up to it.
  pub timer_callback-saved :
      (mode : Mode) (v : Server) (s : Sdk F) (code : ℕ) (garbage more : List ℕ)
      → mode ≢ bag
      → Fails v code
      → s.general.got_correction ≡ false
      → PrintsFields F num
      → n ≤ 64
      → behind ≡ garbage ++ (0 ∷ more)
      → NoNull garbage
      → EndsShort (lines_of garbage)
      → (s' : Sdk F) × (timer_callback F num locals behind saved_file mode v s ≡ ok s')
        × (s'.general.got_correction ≡ is_live mode)
        × (s'.general.ring ≡ s.general.ring)
        × IsReread F num locals t s.general.table s'.general.table n
  unfolding timer_callback load_before get_calibration_from_device take_reply load_local
  timer_callback-saved bag v s code garbage more m fails flag h room b k short = absurd (m refl)
  timer_callback-saved capture v s code garbage more m fails flag h room b k short =
      let (after, l, q) = load_text-saved s.general.table garbage more h room b k short in
      (record s { general = record s.general { table = after } }, rw l refl, flag, refl, q)
  timer_callback-saved live v s code garbage more m fails flag h room b k short =
      let (after, l, q) = load_text-saved s.general.table garbage more h room b k short in
      (corrected F s s.content after, simp (fails, flag, l) refl, refl, refl, q)
