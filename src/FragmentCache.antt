-- ===== src/FragmentCache.antt =====
-- MediaTrack of streamabstraction.cpp: the ring of cached fragments between the fetch and the inject
-- thread of a track. The updates after a fetch and an injection, the waits and the aborts hold the track's
-- mutex; the other lines of a call, and all of FlushFragments, do not, so that each call is one step is a
-- simplification: other calls between its lines are not modelled. Durations are in a fixed unit. The wait of
-- an injection for the sink, the bit rate of a fragment, the caching before play and logging are left out.
pub mod Ring
pub mod Plain
pub mod Discontinuity
pub mod Caches
pub mod Queue
pub mod Examples
use openplatform_rdk_aamp.Prelude.{
  ℕ, suc, zero, ◌+◌, ◌-◌, List, [], ◌∷◌, ◌++◌, Bool, true, false, not, ltb, leb, ◌==◌, ◌&&◌, ◌||◌,
  if◌then◌else◌, Option, none, some, get_or, set, replicate, length,
}

-- TrackType
pub data TrackType : Type 0 where
  video audio subtitle : TrackType

abbrev pub is_subtitle : TrackType → Bool
is_subtitle subtitle = true
is_subtitle _ = false

-- CachedFragment; `ptr` is `none` for a null pointer, else the bytes of the buffer.
pub record Fragment : Type 0 where
  pub ptr : Option (List ℕ)
  pub position : ℕ
  pub duration : ℕ
  pub discontinuity : Bool

-- The members of MediaTrack for its ring; `none` is a slot that memset cleared. `capacity` is
-- maxCachedFragmentsPerTrack.
pub record Track : Type 0 where
  pub type : TrackType
  pub capacity : ℕ
  pub slots : List (Option Fragment)
  pub idx_to_inject : ℕ
  pub idx_to_fetch : ℕ
  pub cached : ℕ
  pub total_fetched_duration : ℕ
  pub total_fragments_downloaded : ℕ
  pub total_injected_duration : ℕ
  pub abort : Bool
  pub abort_inject : Bool
  pub eos_reached : Bool
  pub pts_error : Bool
  pub discontinuity_processed : Bool
  pub seg_inject_fail_count : ℕ

-- The constructor.
abbrev pub new_track : TrackType → ℕ → Track
new_track type capacity = record {
  type = type;
  capacity = capacity;
  slots = replicate capacity none;
  idx_to_inject = 0;
  idx_to_fetch = 0;
  cached = 0;
  total_fetched_duration = 0;
  total_fragments_downloaded = 0;
  total_injected_duration = 0;
  abort = false;
  abort_inject = false;
  eos_reached = false;
  pts_error = false;
  discontinuity_processed = false;
  seg_inject_fail_count = 0;
}

-- `idx++; if (idx == maxCachedFragmentsPerTrack) idx = 0;`
abbrev pub next_idx : ℕ → ℕ → ℕ
next_idx capacity idx = if suc idx == capacity then 0 else suc idx

abbrev pub duration_of : Option Fragment → ℕ
duration_of none = 0
duration_of (some f) = f.duration

-- The collector fills the slot that GetFetchBuffer gives.
abbrev pub fill_fetch_buffer : Fragment → Track → Track
fill_fetch_buffer f t = record t { slots = set t.slots t.idx_to_fetch (some f) }

-- UpdateTSAfterFetch; `none` is a failed assert.
abbrev pub update_after_fetch : Track → Option Track
update_after_fetch t =
    if ltb t.capacity (suc t.cached)
    then none
    else some (record t {
      total_fetched_duration =
          t.total_fetched_duration + duration_of (get_or t.slots t.idx_to_fetch none);
      cached = suc t.cached;
      idx_to_fetch = next_idx t.capacity t.idx_to_fetch;
      total_fragments_downloaded = suc t.total_fragments_downloaded;
    })

-- UpdateTSAfterInject
abbrev pub update_after_inject : Track → Track
update_after_inject t = record t {
  slots = set t.slots t.idx_to_inject none;
  idx_to_inject = next_idx t.capacity t.idx_to_inject;
  cached = t.cached - 1;
}

-- The result of WaitForCachedFragmentAvailable, in the state after the wait.
abbrev pub cached_fragment_available : Track → Bool
cached_fragment_available t = not (t.abort || t.abort_inject || t.cached == 0)

-- Whether it waits: nothing is cached, no abort, no end of stream.
abbrev pub waits_for_cached : Track → Bool
waits_for_cached t = t.cached == 0 && not (t.abort || t.abort_inject) && not t.eos_reached

-- AbortWaitForCachedAndFreeFragment and AbortWaitForCachedFragment
abbrev pub abort_wait : Bool → Track → Track
abort_wait immediate t = if immediate then record t { abort = true } else t

abbrev pub abort_wait_for_cached : Track → Track
abort_wait_for_cached t = record t { abort_inject = true }

-- FlushFragments, which takes no lock; here no other call runs meanwhile.
abbrev pub flush_fragments : Track → Track
flush_fragments t = record t {
  slots = replicate t.capacity none;
  idx_to_inject = 0;
  idx_to_fetch = 0;
  cached = 0;
  total_fetched_duration = 0;
  total_fragments_downloaded = 0;
  total_injected_duration = 0;
}

-- The fragment at fragmentIdxToInject.
abbrev pub fragment_to_inject : Track → Option Fragment
fragment_to_inject t = get_or t.slots t.idx_to_inject none

-- What InjectFragment meets outside the ring: whether the rate is normal and there is a subtitle parser, what
-- ProcessDiscontinuity returns, whether InjectFragmentInternal discards the fragment and what it makes of
-- ptsError, mSegInjectFailCount of the player, and whether the stream has an audio track that is not enabled.
pub record Context : Type 0 where
  pub normal_rate : Bool
  pub has_parser : Bool
  pub process_discontinuity : Bool
  pub discarded : Bool
  pub sink_pts_error : Bool → Bool
  pub fail_limit : ℕ
  pub audio_disabled : Bool

-- Its calls. `sends` is InjectFragmentInternal, `parses` processData of the subtitle parser.
pub data Call : Type 0 where
  sends parses : Fragment → Call
  resets_parser processes_discontinuity signals_trick_mode_discontinuity : Call
  sends_pts_error end_of_stream end_of_audio_stream : Call

-- The calls, the track, and the result; also stopInjection, or not, of a part.
pub record Injected : Type 0 where
  pub calls : List Call
  pub track : Track
  pub ret : Bool

abbrev pub without_discontinuity : Fragment → Fragment
without_discontinuity f = record f { discontinuity = false }

-- `cachedFragment->discontinuity = false`
abbrev pub clear_discontinuity : Fragment → Track → Track
clear_discontinuity f t = record t {
  slots = set t.slots t.idx_to_inject (some (without_discontinuity f));
}

-- The branches on a discontinuity; `ret` is `!stopInjection`.
unfoldable pub discontinuity_part : Context → Fragment → Track → Injected
discontinuity_part ctx f t =
    if is_subtitle t.type && f.discontinuity
    then (if ctx.has_parser
        then record {
          calls = resets_parser ∷ [];
          track = record (clear_discontinuity f t) { discontinuity_processed = true };
          ret = false;
        }
        else record { calls = []; track = clear_discontinuity f t; ret = true })
    else if (f.discontinuity || t.pts_error) && ctx.normal_rate
    then (let cleared = record (clear_discontinuity f t) { pts_error = false } in
        if t.total_injected_duration == 0
        then record { calls = []; track = cleared; ret = true }
        else if ctx.process_discontinuity
        then record {
          calls = processes_discontinuity ∷ [];
          track = record cleared { discontinuity_processed = true };
          ret = false;
        }
        else record { calls = processes_discontinuity ∷ []; track = cleared; ret = true })
    else record {
      calls = if f.discontinuity then signals_trick_mode_discontinuity ∷ [] else [];
      track = t;
      ret = true;
    }

-- totalInjectedDuration, mSegInjectFailCount and ptsError of the track.
abbrev pub counted : ℕ → ℕ → Bool → Track → Track
counted duration fail_count error t = record t {
  total_injected_duration = duration;
  seg_inject_fail_count = fail_count;
  pts_error = error;
}

-- ptsError after the call of the sink, which a subtitle track has not.
abbrev pub pts_error_after : Context → Track → Bool
pts_error_after ctx t = if is_subtitle t.type then t.pts_error else ctx.sink_pts_error t.pts_error

abbrev pub is_discarded : Context → Track → Bool
is_discarded ctx t = not (is_subtitle t.type) && ctx.discarded

abbrev pub reaches_limit : Context → Track → Bool
reaches_limit ctx t = is_discarded ctx t && leb ctx.fail_limit (suc t.seg_inject_fail_count)

-- The block under `if (!stopInjection)`.
unfoldable pub send_part : Context → Fragment → Track → Injected
send_part ctx f t = record {
  calls =
      (if is_subtitle t.type then (if ctx.has_parser then parses f ∷ [] else []) else sends f ∷ [])
      ++ (if reaches_limit ctx t then sends_pts_error ∷ [] else []);
  track = update_after_inject (
      counted
        (if is_discarded ctx t
          then t.total_injected_duration
          else t.total_injected_duration + f.duration)
        (if is_discarded ctx t then suc t.seg_inject_fail_count else 0) (pts_error_after ctx t) t);
  ret = not (reaches_limit ctx t);
}

-- The fragment as the block under `if (!stopInjection)` finds it.
abbrev pub slot_or : Fragment → Option Fragment → Fragment
slot_or f none = f
slot_or f (some g) = g

-- InjectFragment on a fragment with data.
unfoldable pub inject_data : Context → Fragment → Track → Injected
inject_data ctx f t =
    let first = discontinuity_part ctx f t in
    let second = send_part ctx (slot_or f (fragment_to_inject first.track)) first.track in
    if first.ret
    then record { calls = first.calls ++ second.calls; track = second.track; ret = second.ret }
    else first

-- An injection that finds nothing tells the end of the stream.
abbrev pub nothing_to_inject : Context → Track → Injected
nothing_to_inject ctx t = record {
  calls =
      if t.eos_reached
      then end_of_stream
        ∷ (if ctx.audio_disabled && ctx.normal_rate then end_of_audio_stream ∷ [] else [])
      else [];
  track = t;
  ret = false;
}

-- `if (cachedFragment->fragment.ptr)`
abbrev pub is_set {ℓ} : {A : Type ℓ} → Option A → Bool
is_set none = false
is_set (some a) = true

abbrev pub inject_slot : Context → Option Fragment → Track → Injected
inject_slot ctx none t = nothing_to_inject ctx t
inject_slot ctx (some f) t = if is_set f.ptr then inject_data ctx f t else nothing_to_inject ctx t

-- InjectFragment, in the state after its wait. The context of the track is no null pointer.
unfoldable pub inject_fragment : Context → Track → Injected
inject_fragment ctx t =
    if cached_fragment_available t
    then inject_slot ctx (fragment_to_inject t) t
    else nothing_to_inject ctx t

-- A fetch: the collector fills the buffer, then UpdateTSAfterFetch.
unfoldable pub fetch_fragment : Fragment → Track → Option Track
fetch_fragment f t = update_after_fetch (fill_fetch_buffer f t)
