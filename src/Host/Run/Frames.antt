-- ===== src/Host/Run/Frames.antt =====
-- crates/agentmesh-host/src/run.rs: `read_one_frame`. Each turn of the loop is one observation.
pub mod Chunked
use agentmesh_private.Common.{Text, Bool, Option, none, some, List, [], ◌∷◌, if◌then◌else◌}
use agentmesh_private.Common.Results.{Result, ok, err}
use agentmesh_private.Host.Framing.{
  FrameLimits, DecodedFrame, FrameDecoder, Reply, new, push, finish,
}
use agentmesh_private.Host.Framing.Headers.{FrameDecodeError, unexpected_eof}

-- What a turn of the loop meets: a cancelled token, the deadline (before the read or in it), the result
-- of `read`. Reading no byte is the end of the stream.
pub data Observed : Type 0 where
  cancelled timed_out : Observed
  got failed : Text → Observed

pub data ReadFrameError : Type 0 where
  timeout was_cancelled plugin_exited : ReadFrameError
  decode : FrameDecodeError → ReadFrameError
  io : Text → ReadFrameError

abbrev pub at_eof : Reply → Result ReadFrameError DecodedFrame
at_eof (ok (some frame)) = ok frame
at_eof (ok none) = err (decode unexpected_eof)
at_eof (err e) = err (decode e)

abbrev pub after_push :
    Reply → Result ReadFrameError DecodedFrame → Result ReadFrameError DecodedFrame
after_push (ok (some frame)) next = ok frame
after_push (ok none) next = next
after_push (err e) next = err (decode e)

-- The loop. The deadline comes at the latest behind the observations.
unfoldable pub read_from : FrameDecoder → List Observed → Result ReadFrameError DecodedFrame
read_from decoder [] = err timeout
read_from decoder (cancelled ∷ seen) = err was_cancelled
read_from decoder (timed_out ∷ seen) = err timeout
read_from decoder (failed m ∷ seen) = err (io m)
read_from decoder (got [] ∷ seen) = let (reply, decoder') = finish decoder in at_eof reply
read_from decoder (got (b ∷ s) ∷ seen) =
    let (reply, decoder') = push decoder (b ∷ s) in after_push reply (read_from decoder' seen)

unfoldable pub read_one_frame :
    Bool → FrameLimits → List Observed → Result ReadFrameError DecodedFrame
read_one_frame has_stdout limits seen =
    if has_stdout then read_from (new limits) seen else err plugin_exited
