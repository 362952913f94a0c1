-- ===== src/TransportStream/Demux/Alone.antt =====
-- One demuxer alone on the packets of its PID, as demuxAndSend would give them to it.
use openplatform_rdk_aamp.Prelude.{
  ℕ, zero, suc, ◌≡◌, ◌≢◌, refl, List, [], ◌∷◌, ◌++◌, map, Bool, true, false, not, ◌==◌, ◌&&◌,
  if◌then◌else◌, Option, none, some, drop, ap, ◌∙◌, sym, ==_ne, ==_refl,
}
use mathlib.Core.Option.{some-injective}
use mathlib.Core.List.{append_assoc}
use openplatform_rdk_aamp.TransportStream.Demuxer.{
  ◌>>=◌, packet_size, Demuxer, Event, Outcome, process_packet,
}
use openplatform_rdk_aamp.TransportStream.Demux.{
  Track, video, audio, dsmcc, Call, from_demuxer, pid_at,
}

-- A demuxer alone, on the packets with its PID; the flag says that none of them is a PTS error.
unfoldable pub alone : ℕ → ℕ → List ℕ → Demuxer → Option (Demuxer × List Event × Bool)
alone own zero memory d = some (d, [], true)
alone own (suc rounds) memory d = do
  pid ← pid_at memory
  let skipped = alone own rounds (drop packet_size memory) d
  let taken = do
    o ← process_packet d memory
    (e, events, fine) ← alone own rounds (drop packet_size memory) o.demuxer
    some (e, o.events ++ events, not o.pts_error && fine)
  (if pid == own then taken else skipped)

abbrev pub own_events : Track → Call → List Event
own_events video (from_demuxer video e) = e ∷ []
own_events audio (from_demuxer audio e) = e ∷ []
own_events dsmcc (from_demuxer dsmcc e) = e ∷ []
own_events t call = []

-- The events of one demuxer among the calls.
unfoldable pub events_of : Track → List Call → List Event
events_of t [] = []
events_of t (call ∷ calls) = own_events t call ++ events_of t calls

pub bind-eq-some {ℓ κ} :
    {A : Type ℓ} {B : Type κ} (m : Option A) (f : A → Option B) {b : B}
    → (m >>= f) ≡ some b
    → (a : A) × (m ≡ some a) × (f a ≡ some b)
bind-eq-some none f h = cc
bind-eq-some (some a) f h = (a, refl, h)

not_and : (wrong fine : Bool) → (not wrong && fine) ≡ true → (wrong ≡ false) × (fine ≡ true)
not_and true fine h = cc
not_and false fine h = (refl, h)

pub alone-skipped :
    (own rounds pid : ℕ) (memory : List ℕ) (d : Demuxer)
    → pid_at memory ≡ some pid
    → pid ≢ own
    → alone own (suc rounds) memory d ≡ alone own rounds (drop packet_size memory) d
unfolding alone
alone-skipped own rounds pid memory d e other = rw (e, ==_ne pid own other) refl

parts :
    {t u : Demuxer × List Event × Bool} → some t ≡ some u → (t.0 ≡ u.0) × (t.1 ≡ u.1) × (t.2 ≡ u.2)
parts {t} {u} h =
    let e : t ≡ u = some-injective t u h in
    (
      ap (λ (r : Demuxer × List Event × Bool). r.0) e,
      ap (λ (r : Demuxer × List Event × Bool). r.1) e,
      ap (λ (r : Demuxer × List Event × Bool). r.2) e,
    )

pub alone-zero :
    (own : ℕ) (memory : List ℕ) (d e : Demuxer) (es : List Event) (flag : Bool)
    → alone own 0 memory d ≡ some (e, es, flag)
    → (d ≡ e) × ([] ≡ es)
unfolding alone
alone-zero own memory d e es flag h = ((parts h).0, (parts h).1)

pub alone-pid :
    (own rounds : ℕ) (memory : List ℕ) (d : Demuxer) (r : Demuxer × List Event × Bool)
    → alone own (suc rounds) memory d ≡ some r
    → (pid : ℕ) × (pid_at memory ≡ some pid)
unfolding alone
alone-pid own rounds memory d r h =
    let (pid, e, rest) = bind-eq-some (pid_at memory) _ h in (pid, e)

-- The first packet of a run, where it is the demuxer's own.
pub record Taken (own rounds : ℕ) (memory : List ℕ) (d e : Demuxer) (events : List Event)
    (flag : Bool) : Type 0 where
  pub outcome : Outcome
  pub later : List Event
  pub fine : Bool
  pub processed : process_packet d memory ≡ some outcome
  pub follows : alone own rounds (drop packet_size memory) outcome.demuxer ≡ some (e, later, fine)
  pub all_events : events ≡ outcome.events ++ later
  pub all_fine : flag ≡ (not outcome.pts_error && fine)

pub alone-Taken :
    (own rounds : ℕ) (memory : List ℕ) (d e : Demuxer) (events : List Event) (flag : Bool)
    → pid_at memory ≡ some own
    → alone own (suc rounds) memory d ≡ some (e, events, flag)
    → Taken own rounds memory d e events flag
unfolding alone
alone-Taken own rounds memory d e events flag at_pid h =
    let h' = rw (at_pid, ==_refl own) at h in
    let (o, processed, rest) = bind-eq-some (process_packet d memory) _ h' in
    let (r, follows, last) =
      bind-eq-some (alone own rounds (drop packet_size memory) o.demuxer) _ rest in
    record {
      outcome = o;
      later = r.1;
      fine = r.2;
      processed = processed;
      follows = follows ∙ ap (λ (q : Demuxer). some (q, r.1, r.2)) (parts last).0;
      all_events = sym (parts last).1;
      all_fine = sym (parts last).2;
    }

pub events_of-append :
    (t : Track) (xs ys : List Call) → events_of t (xs ++ ys) ≡ events_of t xs ++ events_of t ys
unfolding events_of
events_of-append t [] ys = refl
events_of-append t (x ∷ xs) ys =
    ap (λ (es : List Event). own_events t x ++ es) (events_of-append t xs ys)
    ∙ sym (append_assoc (own_events t x) (events_of t xs) (events_of t ys))

events_of-own : (t : Track) (es : List Event) → events_of t (map (from_demuxer t) es) ≡ es
unfolding events_of
events_of-own t [] = refl
events_of-own video (e ∷ es) = ap (◌∷◌ e) (events_of-own video es)
events_of-own audio (e ∷ es) = ap (◌∷◌ e) (events_of-own audio es)
events_of-own dsmcc (e ∷ es) = ap (◌∷◌ e) (events_of-own dsmcc es)

-- The calls of one demuxer are no events of another.
events_of-other :
    (t u : Track) (es : List Event)
    → ((e : Event) → own_events t (from_demuxer u e) ≡ [])
    → events_of t (map (from_demuxer u) es) ≡ []
unfolding events_of
events_of-other t u [] apart = refl
events_of-other t u (e ∷ es) apart = rw (apart e) (events_of-other t u es apart)

pub own_part :
    (t : Track) (es later all : List Event)
    → all ≡ es ++ later
    → all ≡ events_of t (map (from_demuxer t) es) ++ later
own_part t es later all e = e ∙ ap (λ (xs : List Event). xs ++ later) (sym (events_of-own t es))

pub other_part :
    (t u : Track) (es all : List Event)
    → ((e : Event) → own_events t (from_demuxer u e) ≡ [])
    → all ≡ events_of t (map (from_demuxer u) es) ++ all
other_part t u es all apart =
    ap (λ (xs : List Event). xs ++ all) (sym (events_of-other t u es apart))

pub fine_follows :
    (own rounds : ℕ) (memory : List ℕ) (d e : Demuxer) (events : List Event)
    (t : Taken own rounds memory d e events true)
    → (t.outcome.pts_error ≡ false)
      × (alone own rounds (drop packet_size memory) t.outcome.demuxer ≡ some (e, t.later, true))
fine_follows own rounds memory d e events t =
    let both = not_and t.outcome.pts_error t.fine (sym t.all_fine) in
    (both.0, t.follows ∙ ap (λ (f : Bool). some (e, t.later, f)) both.1)
