-- ===== src/Registry/Confirmation.antt =====
-- proxy/interceptors/confirmation.go: the requests for confirmation, handled one after the other
-- until the channel is closed. The user's handler is a parameter: its answer and whether there was an
-- error. What a hook returns is only logged. The response channel has room for one reply.
pub mod Replies
use pmg.Prelude.{
  Bool, true, false, not, ◌&&◌, Option, none, some, List, [], ◌∷◌, ◌++◌, if◌then◌else◌,
}
use pmg.Analysis.{AnalysisResult}

-- Which of the two hooks are set.
pub record ConfirmationHook : Type 0 where
  pub before_interaction : Bool
  pub after_interaction : Bool

pub record UserAnswer : Type 0 where
  pub says_so : Bool
  pub has_error : Bool

pub data ConfirmationEvent : Type 0 where
  called_before asked : AnalysisResult → ConfirmationEvent
  called_after : AnalysisResult → Bool → ConfirmationEvent
  replied : AnalysisResult → Bool → ConfirmationEvent

abbrev pub hooks_or_default : Option ConfirmationHook → ConfirmationHook
hooks_or_default none = record { before_interaction = false; after_interaction = false }
hooks_or_default (some h) = h

abbrev pub event_if : Bool → ConfirmationEvent → List ConfirmationEvent
event_if true e = e ∷ []
event_if false e = []

-- `responseVal` when the deferred function sends it.
abbrev pub response_val : UserAnswer → Bool
response_val a = if a.has_error then false else a.says_so

-- One request, in the order of the calls; the deferred function is the last.
unfoldable pub handle_confirmation :
    ConfirmationHook → (AnalysisResult → UserAnswer) → AnalysisResult → List ConfirmationEvent
handle_confirmation h user r =
    event_if h.before_interaction (called_before r)
    ++ asked r
      ∷ (event_if h.after_interaction (called_after r ((user r).says_so))
          ++ replied r (response_val (user r)) ∷ [])

unfoldable pub handle_loop :
    ConfirmationHook → (AnalysisResult → UserAnswer) → List AnalysisResult → List ConfirmationEvent
handle_loop h user [] = []
handle_loop h user (r ∷ rs) = handle_confirmation h user r ++ handle_loop h user rs

-- `HandleConfirmationRequests`
unfoldable pub handle_confirmation_requests :
    Option ConfirmationHook
    → (AnalysisResult → UserAnswer)
    → List AnalysisResult
    → List ConfirmationEvent
handle_confirmation_requests hooks user rs = handle_loop (hooks_or_default hooks) user rs
