-- ===== src/TransportStream/Demux/Routing.antt =====
-- demuxAndSend on a stream that goes on: each demuxer sees the packets of its own PID and no other.
use openplatform_rdk_aamp.Prelude.{
  ℕ, zero, suc, ◌/◌, ◌≡◌, ◌≢◌, refl, List, [], ◌++◌, map, Bool, true, false, ◌==◌, ◌||◌,
  if◌then◌else◌, none, some, drop, arith, ap, Bool-cases, inl, inr, ◌∙◌, sym, ==_iff,
}
use mathlib.Core.List.{append_assoc, append-nil}
use openplatform_rdk_aamp.TransportStream.Demuxer.{packet_size, Demuxer, Event}
use openplatform_rdk_aamp.TransportStream.Pmt.{pid_of, first_component}
use openplatform_rdk_aamp.TransportStream.Demux.{
  Track, video, audio, dsmcc, Call, from_demuxer, Processor, Run, pid_at, demux_packet,
  demux_and_send, prepare, is_demux_audio, demux_loop,
}
use openplatform_rdk_aamp.TransportStream.Demux.Alone.{
  alone, events_of, alone-zero, alone-pid, alone-Taken, alone-skipped, fine_follows, own_part,
  other_part, events_of-append,
}
use openplatform_rdk_aamp.TransportStream.Demux.Rounds.{
  with_demuxers, pids, going_on, packet_video, packet_audio, packet_dsmcc, packet_other,
}

==_false : (m n : ℕ) → (m == n) ≡ false → m ≢ n
==_false m n h = ground arith

if_same : (b : Bool) → (if b then true else true) ≡ true
if_same true = refl
if_same false = refl

module _ (base : Processor) (v a c : ℕ) (a_ne_v : a ≢ v) (c_ne_v : c ≢ v) (c_ne_a : c ≢ a) where
  -- What a run from `calls` has added to the events of each demuxer.
  abbrev Adds : List Call → List Call → List Event → List Event → List Event → Type 0
  Adds calls calls' ev ea ec =
      (events_of video calls' ≡ events_of video calls ++ ev)
      × (events_of audio calls' ≡ events_of audio calls ++ ea)
      × (events_of dsmcc calls' ≡ events_of dsmcc calls ++ ec)

  abbrev Routed :
      ℕ
      → List ℕ
      → ℕ
      → ℕ
      → Demuxer
      → Demuxer
      → Demuxer
      → Bool
      → List Call
      → Demuxer
      → Demuxer
      → Demuxer
      → List Event
      → List Event
      → List Event
      → Type 0
  Routed rounds memory position pcr dv da dc updated calls ev_d ea_d ec_d ev ea ec =
      (updated' : Bool) × (calls' : List Call) × (demux_loop rounds (pids v a c) position false
          memory (going_on base dv da dc pcr updated calls)
        ≡ some (going_on base ev_d ea_d ec_d pcr updated' calls'))
      × Adds calls calls' ev ea ec

  added :
      (t : Track) (calls new calls' : List Call) (later all_new : List Event)
      → events_of t calls' ≡ events_of t (calls ++ new) ++ later
      → all_new ≡ events_of t new ++ later
      → events_of t calls' ≡ events_of t calls ++ all_new
  added t calls new calls' later all_new e f =
      e
      ∙ ap (λ (es : List Event). es ++ later) (events_of-append t calls new)
      ∙ append_assoc (events_of t calls) (events_of t new) later
      ∙ ap (λ (es : List Event). events_of t calls ++ es) (sym f)

  module _ (rounds position pcr : ℕ) (memory : List ℕ) (updated : Bool) (calls : List Call)
      (dv da dc dv' da' dc' : Demuxer) (ev ea ec : List Event) where
    -- One packet, then the others.
    Routed-after :
        (nv na nc : Demuxer) (updated' : Bool) (new : List Call) (ev2 ea2 ec2 : List Event)
        → demux_packet (pids v a c) position false memory (going_on base dv da dc pcr updated calls)
          ≡ some (going_on base nv na nc pcr updated' (calls ++ new))
        → Routed rounds
            (drop packet_size memory)
            position
            pcr
            nv
            na
            nc
            updated'
            (calls ++ new)
            dv'
            da'
            dc'
            ev2
            ea2
            ec2
        → ev ≡ events_of video new ++ ev2
        → ea ≡ events_of audio new ++ ea2
        → ec ≡ events_of dsmcc new ++ ec2
        → Routed (suc rounds) memory position pcr dv da dc updated calls dv' da' dc' ev ea ec
    unfolding demux_loop
    Routed-after nv na nc updated' new ev2 ea2 ec2 e r fv fa fc = (
      r.0,
      r.1,
      rw e r.2,
      (
        added video calls new r.1 ev2 ev r.3.0 fv,
        added audio calls new r.1 ea2 ea r.3.1 fa,
        added dsmcc calls new r.1 ec2 ec r.3.2 fc,
      ),
    )

  -- The theorem for a number of rounds.
  abbrev Holds : ℕ → ℕ → ℕ → List ℕ → Type 0
  Holds position pcr rounds memory =
      (updated : Bool) (calls : List Call) (dv da dc dv' da' dc' : Demuxer) (ev ea ec : List Event)
      (fc : Bool)
      → alone v rounds memory dv ≡ some (dv', ev, true)
      → alone a rounds memory da ≡ some (da', ea, true)
      → alone c rounds memory dc ≡ some (dc', ec, fc)
      → Routed rounds memory position pcr dv da dc updated calls dv' da' dc' ev ea ec

  no_rounds : (position pcr : ℕ) (memory : List ℕ) → Holds position pcr 0 memory
  unfolding demux_loop
  no_rounds position pcr memory updated calls dv da dc dv' da' dc' ev ea ec fc hv ha hc =
      let (v_same, v_none) = alone-zero v memory dv dv' ev true hv in
      let (a_same, a_none) = alone-zero a memory da da' ea true ha in
      let (c_same, c_none) = alone-zero c memory dc dc' ec fc hc in
      (
        updated,
        calls,
        rw (v_same, a_same, c_same) refl,
        (
          rw (← v_none) (sym (append-nil (events_of video calls))),
          rw (← a_none) (sym (append-nil (events_of audio calls))),
          rw (← c_none) (sym (append-nil (events_of dsmcc calls))),
        ),
      )

  -- A round, by the PID of its packet, from the rounds behind it.
  module _ (position pcr rounds pid : ℕ) (memory : List ℕ)
      (ih : Holds position pcr rounds (drop packet_size memory)) (at_pid : pid_at memory ≡ some pid)
      (updated : Bool) (calls : List Call) (dv da dc dv' da' dc' : Demuxer) (ev ea ec : List Event)
      (fc : Bool) (hv : alone v (suc rounds) memory dv ≡ some (dv', ev, true))
      (ha : alone a (suc rounds) memory da ≡ some (da', ea, true))
      (hc : alone c (suc rounds) memory dc ≡ some (dc', ec, fc)) where
    abbrev Goal : Type 0
    Goal = Routed (suc rounds) memory position pcr dv da dc updated calls dv' da' dc' ev ea ec

    skipped :
        (own : ℕ) (d : Demuxer) {r : Demuxer × List Event × Bool}
        → pid ≢ own
        → alone own (suc rounds) memory d ≡ some r
        → alone own rounds (drop packet_size memory) d ≡ some r
    skipped own d other h = sym (alone-skipped own rounds pid memory d at_pid other) ∙ h

    round_video : pid ≡ v → Goal
    round_video e =
        let t = alone-Taken v rounds memory dv dv' ev true (rw e at at_pid) hv in
        let (fine, follows) = fine_follows v rounds memory dv dv' ev t in
        let es = t.outcome.events in
        Routed-after rounds position pcr memory updated calls dv da dc dv' da' dc' ev ea ec
          t.outcome.demuxer da dc (updated || t.outcome.base_pts_updated)
          (map (from_demuxer video) es) t.later ea ec
          (packet_video base v a c a_ne_v c_ne_v c_ne_a position pid pcr memory updated calls dv da
            dc at_pid t.outcome e t.processed fine)
          (ih _ _ t.outcome.demuxer da dc dv' da' dc' t.later ea ec fc follows
            (skipped a da (λ q. a_ne_v (sym q ∙ e)) ha) (skipped c dc (λ q. c_ne_v (sym q ∙ e)) hc))
          (own_part video es t.later ev t.all_events) (other_part audio video es ea (λ x. refl))
          (other_part dsmcc video es ec (λ x. refl))

    round_audio : pid ≢ v → pid ≡ a → Goal
    round_audio nv e =
        let t = alone-Taken a rounds memory da da' ea true (rw e at at_pid) ha in
        let (fine, follows) = fine_follows a rounds memory da da' ea t in
        let es = t.outcome.events in
        Routed-after rounds position pcr memory updated calls dv da dc dv' da' dc' ev ea ec dv
          t.outcome.demuxer dc (updated || t.outcome.base_pts_updated) (map (from_demuxer audio) es)
          ev t.later ec
          (packet_audio base v a c a_ne_v c_ne_v c_ne_a position pid pcr memory updated calls dv da
            dc at_pid t.outcome e t.processed fine)
          (ih _ _ dv t.outcome.demuxer dc dv' da' dc' ev t.later ec fc (skipped v dv nv hv) follows
            (skipped c dc (λ q. c_ne_a (sym q ∙ e)) hc))
          (other_part video audio es ev (λ x. refl)) (own_part audio es t.later ea t.all_events)
          (other_part dsmcc audio es ec (λ x. refl))

    round_dsmcc : pid ≢ v → pid ≢ a → pid ≡ c → Goal
    round_dsmcc nv na e =
        let t = alone-Taken c rounds memory dc dc' ec fc (rw e at at_pid) hc in
        let es = t.outcome.events in
        Routed-after rounds position pcr memory updated calls dv da dc dv' da' dc' ev ea ec dv da
          t.outcome.demuxer (updated || t.outcome.base_pts_updated) (map (from_demuxer dsmcc) es) ev
          ea t.later
          (packet_dsmcc base v a c a_ne_v c_ne_v c_ne_a position pid pcr memory updated calls dv da
            dc at_pid t.outcome e t.processed)
          (ih _ _ dv da t.outcome.demuxer dv' da' dc' ev ea t.later t.fine (skipped v dv nv hv)
            (skipped a da na ha) t.follows)
          (other_part video dsmcc es ev (λ x. refl)) (other_part audio dsmcc es ea (λ x. refl))
          (own_part dsmcc es t.later ec t.all_events)

    round_other : pid ≢ v → pid ≢ a → pid ≢ c → Goal
    unfolding events_of
    round_other nv na nc =
        Routed-after rounds position pcr memory updated calls dv da dc dv' da' dc' ev ea ec dv da dc
          updated [] ev ea ec
          (packet_other base v a c a_ne_v c_ne_v c_ne_a position pid pcr memory updated calls dv da
              dc at_pid nv na nc
            ∙ ap (λ (cs : List Call). some (going_on base dv da dc pcr updated cs))
                (sym (append-nil calls)))
          (ih _ _ dv da dc dv' da' dc' ev ea ec fc (skipped v dv nv hv) (skipped a da na ha)
            (skipped c dc nc hc))
          refl refl refl

    any_round : Goal
    any_round = elim (Bool-cases (pid == v)) [
      | inl e ↦ round_video ((==_iff pid v).0 e)
      | inr nv ↦ elim (Bool-cases (pid == a)) [
        | inl e ↦ round_audio (==_false pid v nv) ((==_iff pid a).0 e)
        | inr na ↦ elim (Bool-cases (pid == c)) [
          | inl e ↦ round_dsmcc (==_false pid v nv) (==_false pid a na) ((==_iff pid c).0 e)
          | inr nc ↦ round_other (==_false pid v nv) (==_false pid a na) (==_false pid c nc)
        ]
      ]
    ]

  demux_loop-alone : (position pcr rounds : ℕ) (memory : List ℕ) → Holds position pcr rounds memory
  demux_loop-alone position pcr zero memory = no_rounds position pcr memory
  demux_loop-alone position pcr (suc rounds) memory =
      λ updated calls dv da dc dv' da' dc' ev ea ec fc hv ha hc.
        let (pid, at_pid) = alone-pid v rounds memory dv (dv', ev, true) hv in
        any_round position pcr rounds pid memory
          (demux_loop-alone position pcr rounds (drop packet_size memory)) at_pid updated calls dv
          da dc dv' da' dc' ev ea ec fc hv ha hc

  -- demuxAndSend on both tracks of a stream that goes on: the demuxers have been started, the segment is
  -- not discontinuous, and the PIDs of the first video, first audio and DSM-CC component differ. Where the
  -- three demuxers alone, each on the packets of its own PID, end without a PTS error of video or audio,
  -- demuxAndSend returns true, leaves each demuxer in the state that it reaches alone, and makes for each
  -- the calls that it makes alone, in that order.
  pub demux_and_send-alone :
      (memory : List ℕ) (len position duration : ℕ) (dv da dc dv' da' dc' : Demuxer)
      (ev ea ec : List Event) (fc : Bool)
      → pid_of (first_component base.video_components) ≡ some v
      → pid_of (first_component base.audio_components) ≡ some a
      → pid_of base.dsmcc_component ≡ some c
      → alone v (len / packet_size) memory dv ≡ some (dv', ev, true)
      → alone a (len / packet_size) memory da ≡ some (da', ea, true)
      → alone c (len / packet_size) memory dc ≡ some (dc', ec, fc)
      → (r : Run) × (demux_and_send
            (with_demuxers base dv da dc)
            memory
            len
            position
            duration
            false
            none
          ≡ some r)
        × (r.ret ≡ true)
        × (r.processor ≡ with_demuxers base dv' da' dc')
        × (events_of video r.calls ≡ ev)
        × (events_of audio r.calls ≡ ea)
        × (events_of dsmcc r.calls ≡ ec)
  unfolding demux_and_send prepare events_of
  demux_and_send-alone memory len position duration dv da dc dv' da' dc' ev ea ec fc pv pa pc hv ha
        hc =
      let (updated, calls, e, adds) =
        demux_loop-alone position 0 (len / packet_size) memory false [] dv da dc dv' da' dc' ev ea
          ec fc hv ha hc in
      (
        going_on base dv' da' dc' 0 updated calls,
        rw (pv, pa, pc, if_same (is_demux_audio base.operation)) e,
        refl,
        refl,
        adds.0,
        adds.1,
        adds.2,
      )
