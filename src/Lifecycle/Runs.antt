-- ===== src/Lifecycle/Runs.antt =====
-- Every sequence of starts and stops ends all threads that it began, each once.
use go2_setup.Shared.{
  ℕ, ◌+◌, ◌≡◌, ◌≢◌, inl, inr, refl, ap, ◌∙◌, sym, arith, Bool, true, false, ◌||◌, List, [], ◌∷◌,
  ◌++◌, Option, none, some, ◌==◌, if◌then◌else◌, Bool-cases,
}
use go2_setup.Lifecycle.{
  Action, started, joined, freed, Reader, General, connected, replaying, end_thread, end_reader,
  stop_reader, stop, start_recv, start_reader, start_process, start, destroy,
}

abbrev pub is_in : ℕ → List ℕ → Bool
is_in t [] = false
is_in t (x ∷ xs) = x == t || is_in t xs

abbrev pub without : ℕ → List ℕ → List ℕ
without t [] = []
without t (x ∷ xs) = let rest = without t xs in if x == t then rest else x ∷ rest

-- The threads that run after these actions, if each action is in order: a thread is joined while it
-- runs, and freed once it does not.
unfoldable pub running : List ℕ → List Action → Option (List ℕ)
running live [] = some live
running live (started t ∷ acts) = running (t ∷ live) acts
running live (joined t ∷ acts) =
    let rest = running (without t live) acts in if is_in t live then rest else none
running live (freed t ∷ acts) = let rest = running live acts in if is_in t live then none else rest

abbrev pub running_on : Option (List ℕ) → List Action → Option (List ℕ)
running_on none acts = none
running_on (some live) acts = running live acts

pub running-append :
    (live : List ℕ) (acts bs : List Action)
    → running live (acts ++ bs) ≡ running_on (running live acts) bs
unfolding running
running-append live [] bs = refl
running-append live (started t ∷ acts) bs = running-append (t ∷ live) acts bs
running-append live (joined t ∷ acts) bs = ground (arith, running-append (without t live) acts bs)
running-append live (freed t ∷ acts) bs = ground (arith, running-append live acts bs)

-- The threads that the pointers hold, the newest first.
abbrev pub one : Option ℕ → List ℕ
one none = []
one (some t) = t ∷ []

abbrev pub of_reader : Option Reader → List ℕ
of_reader none = []
of_reader (some r) = one r.parse_thr

abbrev pub held : General → List ℕ
held g = of_reader g.pcap_reader ++ (one g.lidar_recv_thr ++ one g.lidar_process_thr)

abbrev pub has_reader : Option Reader → Bool
has_reader none = false
has_reader (some r) = true

-- No thread; or the processing thread and the one that fills the ring.
pub data Phase : General → Bool → Type 0 where
  stopped :
      (g : General)
      → g.lidar_process_thr ≡ none
      → g.lidar_recv_thr ≡ none
      → of_reader g.pcap_reader ≡ []
      → Phase g false
  receiving :
      (g : General) (t u : ℕ)
      → t ≢ u
      → g.lidar_process_thr ≡ some t
      → g.lidar_recv_thr ≡ some u
      → of_reader g.pcap_reader ≡ []
      → Phase g true
  reading :
      (g : General) (t u : ℕ)
      → t ≢ u
      → g.lidar_process_thr ≡ some t
      → g.lidar_recv_thr ≡ none
      → of_reader g.pcap_reader ≡ u ∷ []
      → Phase g true

-- The log is in order and leaves just the threads that the pointers hold; there is a reader unless a
-- lidar is connected.
pub record IsSound (g : General) (is_running : Bool) : Type 0 where
  pub phase : Phase g is_running
  pub threads : running [] g.log ≡ some (held g)
  pub reader : has_reader g.pcap_reader ≡ (if g.connect_lidar then false else true)

held_thread : (o : Option ℕ) (u : ℕ) → one o ≡ u ∷ [] → end_thread o ≡ joined u ∷ freed u ∷ []
held_thread none u h = ground arith
held_thread (some t) u h = ground arith

no_thread : (o : Option ℕ) → one o ≡ [] → end_thread o ≡ []
no_thread none h = refl
no_thread (some t) h = ground arith

reader_thread :
    (o : Option Reader) (u : ℕ) → of_reader o ≡ u ∷ [] → end_reader o ≡ joined u ∷ freed u ∷ []
reader_thread none u h = ground arith
reader_thread (some r) u h = held_thread r.parse_thr u h

no_reader_thread : (o : Option Reader) → of_reader o ≡ [] → end_reader o ≡ []
no_reader_thread none h = refl
no_reader_thread (some r) h = no_thread r.parse_thr h

stopped_reader : (o : Option Reader) → of_reader (stop_reader o) ≡ []
stopped_reader none = refl
stopped_reader (some r) = refl

has_reader-stop : (o : Option Reader) → has_reader (stop_reader o) ≡ has_reader o
has_reader-stop none = refl
has_reader-stop (some r) = refl

abbrev endings : General → List Action
endings g =
    end_thread g.lidar_process_thr ++ (end_thread g.lidar_recv_thr ++ end_reader g.pcap_reader)

endings_lem : (g : General) (b : Bool) → Phase g b → running (held g) (endings g) ≡ some []
unfolding running
endings_lem g b (stopped _ p r o) = rw (o, p, r, no_reader_thread g.pcap_reader o)
endings_lem g b (receiving _ t u d p r o) =
    rw (o, p, r, no_reader_thread g.pcap_reader o) (ground arith)
endings_lem g b (reading _ t u d p r o) =
    rw (o, p, r, reader_thread g.pcap_reader u o) (ground arith)

stop-IsSound : (g : General) (b : Bool) → IsSound g b → IsSound (stop g) false
unfolding stop
stop-IsSound g b h = record {
  phase = stopped _ refl refl (stopped_reader g.pcap_reader);
  threads =
      running-append [] g.log (endings g)
      ∙ ap (λ o. running_on o (endings g)) h.threads
      ∙ endings_lem g b h.phase
      ∙ rw (stopped_reader g.pcap_reader) refl;
  reader = has_reader-stop g.pcap_reader ∙ h.reader;
}

running-started :
    (done : List Action) (live : List ℕ) (t : ℕ)
    → running [] done ≡ some live
    → running [] (done ++ (started t ∷ [])) ≡ some (t ∷ live)
unfolding running
running-started done live t h =
    running-append [] done (started t ∷ []) ∙ ap (λ o. running_on o (started t ∷ [])) h

pub record IsStopped (g : General) : Type 0 where
  pub process : g.lidar_process_thr ≡ none
  pub recv : g.lidar_recv_thr ≡ none
  pub reader : of_reader g.pcap_reader ≡ []

phase-IsStopped : (g : General) (b : Bool) → Phase g b → b ≡ false → IsStopped g
phase-IsStopped g b (stopped _ p r o) e = record { process = p; recv = r; reader = o }
phase-IsStopped g b (receiving _ t u d p r o) e = ground arith
phase-IsStopped g b (reading _ t u d p r o) e = ground arith

stopped-held : (g : General) → IsStopped g → held g ≡ []
stopped-held g h = rw (h.reader, h.recv, h.process) refl

start_process-running :
    (g : General) → IsSound g false → running [] (start_process g).log ≡ some (g.next ∷ [])
unfolding start_process
start_process-running g h =
    running-started g.log [] g.next
      (h.threads ∙ ap some (stopped-held g (phase-IsStopped g false h.phase refl)))

start_recv-IsSound :
    (g : General)
    → g.connect_lidar ≡ true
    → IsSound g false
    → IsSound (start_recv (start_process g)) true
unfolding start_recv start_process
start_recv-IsSound g c h =
    let s = phase-IsStopped g false h.phase refl in
    record {
      phase = receiving _ g.next (g.next + 1) (omega arith) refl refl s.reader;
      threads =
          running-started (start_process g).log (g.next ∷ []) (g.next + 1)
            (start_process-running g h)
          ∙ rw (s.reader) refl;
      reader = h.reader;
    }

start_reader-IsSound :
    (g : General) (o : Option Reader)
    → g.pcap_reader ≡ o
    → g.connect_lidar ≡ false
    → IsSound g false
    → (g' : General) × (start_reader (start_process g) o ≡ some g')
      × IsSound g' true
      × (g'.connect_lidar ≡ false)
unfolding start_reader start_process
start_reader-IsSound g none e c h =
    absurd (let k = ap has_reader e in ground (arith, k, h.reader, c))
start_reader-IsSound g (some r) e c h =
    let s = phase-IsStopped g false h.phase refl in
    let idle : one r.parse_thr ≡ [] = ap of_reader (sym e) ∙ s.reader in
    (
      _,
      refl,
      record {
        phase = reading _ g.next (g.next + 1) (omega arith) refl s.recv refl;
        threads =
            rw (no_thread r.parse_thr idle, s.recv)
              (running-started (start_process g).log (g.next ∷ []) (g.next + 1)
                (start_process-running g h));
        reader = rw c refl;
      },
      c,
    )

start_recv-connect : (g : General) → (start_recv (start_process g)).connect_lidar ≡ g.connect_lidar
unfolding start_recv start_process
start_recv-connect g = refl

stop-connect : (g : General) → (stop g).connect_lidar ≡ g.connect_lidar
unfolding stop
stop-connect g = refl

started_by :
    (g : General) (is_lidar : Bool)
    → g.connect_lidar ≡ is_lidar
    → start g ≡ (
        if is_lidar
        then some (start_recv (start_process (stop g)))
        else start_reader (start_process (stop g)) (stop g).pcap_reader)
unfolding start start_process
started_by g is_lidar c =
    ap
      (λ b.
        if b
        then some (start_recv (start_process (stop g)))
        else start_reader (start_process (stop g)) (stop g).pcap_reader)
      c

pub start-IsSound :
    (g : General) (b : Bool)
    → IsSound g b
    → (g' : General) × (start g ≡ some g') × IsSound g' true × (g'.connect_lidar ≡ g.connect_lidar)
unfolding stop
start-IsSound g b h = elim (Bool-cases g.connect_lidar) [
  | inl c ↦ (
    start_recv (start_process (stop g)),
    started_by g true c,
    start_recv-IsSound (stop g) c (stop-IsSound g b h),
    start_recv-connect (stop g),
  )
  | inr c ↦
      let (g', e, s, k) =
        start_reader-IsSound (stop g) (stop g).pcap_reader refl c (stop-IsSound g b h) in
      (g', started_by g false c ∙ e, s, k ∙ sym c)
]

destroy-running : (g : General) (b : Bool) → IsSound g b → running [] (destroy g).log ≡ some []
unfolding destroy stop running
destroy-running g b h =
    let s = stop-IsSound g b h in
    let p = phase-IsStopped (stop g) false s.phase refl in
    running-append [] (stop g).log (end_reader (stop_reader g.pcap_reader))
    ∙ ap (λ o. running_on o (end_reader (stop_reader g.pcap_reader))) s.threads
    ∙ rw (no_reader_thread (stop_reader g.pcap_reader) p.reader, stopped-held (stop g) p) refl

-- `Start` for `true` and `Stop` for `false`.
abbrev pub call : Bool → General → Option General
call true g = start g
call false g = some (stop g)

abbrev pub calls : List Bool → Option General → Option General
calls cs none = none
calls [] (some g) = some g
calls (c ∷ cs) (some g) = calls cs (call c g)

abbrev pub last_of : Bool → List Bool → Bool
last_of b [] = b
last_of b (c ∷ cs) = last_of c cs

-- A new object for a lidar, if `is_lidar`, or for a capture.
abbrev pub new : Bool → General
new true = connected
new false = replaying

new-IsSound : (is_lidar : Bool) → IsSound (new is_lidar) false
unfolding running
new-IsSound true = record { phase = stopped _ refl refl refl; threads = refl; reader = refl }
new-IsSound false = record { phase = stopped _ refl refl refl; threads = refl; reader = refl }

calls-IsSound :
    (cs : List Bool) (g : General) (b : Bool)
    → IsSound g b
    → (g' : General) × (calls cs (some g) ≡ some g')
      × IsSound g' (last_of b cs)
      × (g'.connect_lidar ≡ g.connect_lidar)
calls-IsSound [] g b h = (g, refl, h, refl)
calls-IsSound (true ∷ cs) g b h =
    let (g', e, s, c) = start-IsSound g b h in
    let (g'', e', s', c') = calls-IsSound cs g' true s in (g'', ap (calls cs) e ∙ e', s', c' ∙ c)
calls-IsSound (false ∷ cs) g b h =
    let (g', e, s, c) = calls-IsSound cs (stop g) false (stop-IsSound g b h) in
    (g', e, s, c ∙ stop-connect g)

-- From either constructor on, no sequence of starts and stops uses a null reader; afterwards the
-- log is in order, each thread being joined while it runs and freed behind that, and leaves just
-- the threads that the pointers hold: none if nothing came last or a stop, the processing thread
-- and either the receiving or the reader's if a start; and the destructor then ends them all.
pub calls-new :
    (is_lidar : Bool) (cs : List Bool)
    → (g : General) × (calls cs (some (new is_lidar)) ≡ some g)
      × Phase g (last_of false cs)
      × (running [] g.log ≡ some (held g))
      × (running [] (destroy g).log ≡ some [])
calls-new is_lidar cs =
    let (g, e, s, c) = calls-IsSound cs (new is_lidar) false (new-IsSound is_lidar) in
    (g, e, s.phase, s.threads, destroy-running g (last_of false cs) s)
