-- ===== src/Lib.antt =====
-- AAMP, the adaptive media player of RDK: a verification development for the parts of the player that
-- decide by themselves and call little else.
--
-- The parts and how they interact. The collectors (fragmentcollector_hls.cpp, fragmentcollector_mpd.cpp)
-- download playlists and fragments. Playlists go through the cache of AampCacheHandler.cpp. Fragments of
-- ISO base media files go to isobmff/isobmffprocessor.cpp, which parses the first ones with
-- isobmff/isobmffbuffer.cpp and isobmff/isobmffbox.cpp, seeks the sink to the first PTS and lets the audio
-- track wait for it. Licence requests and DRM data use the codecs of base16.cpp, _base64.cpp and
-- AampUtils.cpp. Downloaded fragments wait in the ring of streamabstraction.cpp. Transport streams go
-- through tsprocessor.cpp, which sends the elementary streams on with times from 0.
-- closedcaptions/rdk/AampRDKCCManager.cpp turns the platform's captions on and off.
--
-- Prelude: Boolean tests, lists, options and bit operations over the native numbers.
-- Codec: base16.cpp (base16_Encode, base16_Decode), _base64.cpp (base64_Encode, base64_Decode) and the
--   URL-safe pair of AampUtils.cpp. A buffer is a list of bytes; the memory behind a string is explicit
--   where a decoder reads on. malloc succeeds. The URL-safe decoder computes its length as an int of 32
--   bits, and `none` is an access outside its buffer.
-- PlaylistCache: AampCacheHandler.cpp. The table is an association list, buffers are addresses of a heap,
--   each call is one step, also the round of the clean-up thread, which does not take mMutex.
--   RetrieveFromPlaylistCache reports a read of a freed buffer as `dangling`. The limit is an option, `none`
--   for unlimited; mCacheStoredSize is an int, kept as its pattern of 32 bits.
-- IsoBmff: isobmff/isobmffbox.h and isobmffbox.cpp (Words, Parse), isobmffbuffer.cpp (Parse, Query),
--   isobmffprocessor.cpp (Processor). Tree describes a box structure and its bytes without the parser.
--   The parser runs on fuel: `stuck` says that it ran out, and one round more than there are bytes is
--   enough for every well-formed structure. A uint32_t offset wraps as it does in the code.
--   The processor records its calls of the player (SendStream, FlushStreamSink, SendErrorEvent) and of
--   its peer as events. What other threads do is a list of calls before the lock is taken and one during
--   the wait; other points of interference are not modelled. Positions are doubles, kept as quotients.
-- Captions: closedcaptions/rdk/AampRDKCCManager.cpp without the styles. The CC module is a record of
--   operations and laws (Captions/Module), its results are arguments. A char of a track is unsigned.
-- Url: ParseUriProtocol and aamp_ResolveURL of AampUtils.cpp on the characters of a string.
-- TransportStream: the class Demuxer and TSProcessor of tsprocessor.cpp: time stamps (TimeStamps), the
--   demuxer of one PID with its PES state machine (Demuxer), processPMTSection (Pmt), demuxAndSend
--   (Demux), and the bits of H.264 headers with its parameter sets (Bits, Bits/Sps), where the mask is
--   the exponent of its power of two and an int its 32 bits. Calls of the player and of the peer are
--   events. A read behind the memory is `none`, in Pmt `overrun`. The while loop of the PES machine has
--   four rounds of fuel, the loops of Pmt as many as the section has bytes, the loop over the zeros of a
--   code as many as there are bits. Positions and durations are in a fixed unit; a time that is sent is
--   a position with its ticks of 90 kHz. An unsigned long long wraps at 2 ^ 64; the PID -1 is `none`.
-- FragmentCache: MediaTrack of streamabstraction.cpp, the ring between the fetch and the inject thread of a
--   track (Ring, Caches, Queue), and InjectFragment (Plain, Discontinuity). Each call is one step, although
--   InjectFragment and FlushFragments do not hold the track's mutex throughout. What the player, the sink,
--   the subtitle parser and ProcessDiscontinuity answer is an argument, the calls of them are a list.
--   Durations are in a fixed unit.
--
-- Not modelled: restampPTS of isobmffbuffer.cpp, the style options of the captions, and the wait for a free
-- slot, the caching before play and the bit rate notification of MediaTrack; the destructors; of tsprocessor.cpp
-- sendSegment, the collection of PAT and PMT packets, the restamping and the throttle; the collectors, DRM
-- sessions, the player core and the GStreamer player, which are mostly calls of libraries; logging. An
-- `int` of the code that is only returned or tested for zero is a ℤ of its own in Captions.
pub mod Captions
pub mod Codec
pub mod FragmentCache
pub mod IsoBmff
pub mod PlaylistCache
pub mod Prelude
pub mod TransportStream
pub mod Url
