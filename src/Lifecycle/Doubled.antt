-- ===== src/Lifecycle/Doubled.antt =====
-- What a second stop of the SDK does to the thread that gets the calibration.
use go2_setup.Shared.{
  ℕ, ◌≡◌, refl, ap, ◌∙◌, arith, false, List, [], ◌∷◌, ◌++◌, append-nil, Option, none, some,
}
use go2_setup.Lifecycle.{
  joined, Reader, end_reader, stop_reader, stop, destroy, SdkThreads, stop_sdk, destroy_sdk,
}
use go2_setup.Lifecycle.Runs.{is_in, without, running, running_on, running-append}

is_in-without : (t : ℕ) (xs : List ℕ) → is_in t (without t xs) ≡ false
is_in-without t [] = refl
is_in-without t (x ∷ xs) = ground (arith, is_in-without t xs)

joined_twice :
    (o : Option (List ℕ)) (t : ℕ) → running_on (running_on o (joined t ∷ [])) (joined t ∷ []) ≡ none
unfolding running
joined_twice none t = refl
joined_twice (some live) t = ground (arith, is_in-without t live)

stopped_endings : (o : Option Reader) → end_reader (stop_reader o) ≡ []
stopped_endings none = refl
stopped_endings (some r) = refl

reader-twice : (o : Option Reader) → stop_reader (stop_reader o) ≡ stop_reader o
reader-twice none = refl
reader-twice (some r) = refl

twice_log :
    (s : SdkThreads) (t : ℕ)
    → s.get_calibration_thr ≡ some t
    → destroy_sdk (stop_sdk s) ≡ ((stop s.general).log ++ (joined t ∷ [])) ++ (joined t ∷ [])
unfolding destroy_sdk stop_sdk destroy stop
twice_log s t h =
    simp (h, stopped_endings s.general.pcap_reader, reader-twice s.general.pcap_reader, append-nil)
      refl

-- Whatever the object did before: once the thread that gets the calibration was begun, a stop
-- followed by the destructor, which stops again, joins a thread that does not run.
pub destroy_sdk-stop_sdk :
    (s : SdkThreads) (t : ℕ)
    → s.get_calibration_thr ≡ some t
    → running [] (destroy_sdk (stop_sdk s)) ≡ none
destroy_sdk-stop_sdk s t h =
    ap (running []) (twice_log s t h)
    ∙ running-append [] ((stop s.general).log ++ (joined t ∷ [])) (joined t ∷ [])
    ∙ ap (λ o. running_on o (joined t ∷ []))
        (running-append [] (stop s.general).log (joined t ∷ []))
    ∙ joined_twice (running [] (stop s.general).log) t
