-- ===== src/Registry/Confirmation/Replies.antt =====
-- What the loop of proxy/interceptors/confirmation.go replies.
use pmg.Prelude.{
  ◌≡◌, refl, Bool, false, Option, none, some, List, [], ◌∷◌, ◌&&◌, not, if◌then◌else◌, arith,
}
use pmg.Analysis.{AnalysisResult}
use pmg.Registry.Confirmation.{
  ConfirmationHook, UserAnswer, ConfirmationEvent, called_before, asked, called_after, replied,
  hooks_or_default, handle_confirmation, handle_loop, handle_confirmation_requests,
}

-- The replies of a run, and what the second hook was told.
abbrev pub replies : List ConfirmationEvent → List (AnalysisResult × Bool)
replies [] = []
replies (called_before r ∷ es) = replies es
replies (asked r ∷ es) = replies es
replies (called_after r b ∷ es) = replies es
replies (replied r b ∷ es) = (r, b) ∷ replies es

abbrev pub told : List ConfirmationEvent → List (AnalysisResult × Bool)
told [] = []
told (called_before r ∷ es) = told es
told (asked r ∷ es) = told es
told (called_after r b ∷ es) = (r, b) ∷ told es
told (replied r b ∷ es) = told es

abbrev pub has_after : Option ConfirmationHook → Bool
has_after none = false
has_after (some h) = h.after_interaction

-- The requests with what the user says to each, and with whether that is a yes without an error.
abbrev pub answers :
    (AnalysisResult → UserAnswer) → List AnalysisResult → List (AnalysisResult × Bool)
answers user [] = []
answers user (r ∷ rs) = (r, (user r).says_so) ∷ answers user rs

abbrev pub consents :
    (AnalysisResult → UserAnswer) → List AnalysisResult → List (AnalysisResult × Bool)
consents user [] = []
consents user (r ∷ rs) = (r, (user r).says_so && not ((user r).has_error)) ∷ consents user rs

replies-handle_loop :
    (h : ConfirmationHook) (user : AnalysisResult → UserAnswer) (rs : List AnalysisResult)
    → replies (handle_loop h user rs) ≡ consents user rs
unfolding handle_loop handle_confirmation
replies-handle_loop h user [] = refl
replies-handle_loop h user (r ∷ rs) = ground (arith, replies-handle_loop h user rs)

told-handle_loop :
    (h : ConfirmationHook) (user : AnalysisResult → UserAnswer) (rs : List AnalysisResult)
    → told (handle_loop h user rs) ≡ (if h.after_interaction then answers user rs else [])
unfolding handle_loop handle_confirmation
told-handle_loop h user [] = ground arith
told-handle_loop h user (r ∷ rs) = ground (arith, told-handle_loop h user rs)

-- Every request is replied to exactly once, in the order of the requests, with yes exactly where the
-- user says yes without an error; and the second hook, where it is set, is told the user's answer to
-- every request, error or not.
pub handle_confirmation_requests_lem :
    (hooks : Option ConfirmationHook) (user : AnalysisResult → UserAnswer)
    (rs : List AnalysisResult)
    → (replies (handle_confirmation_requests hooks user rs) ≡ consents user rs)
      × (told (handle_confirmation_requests hooks user rs)
          ≡ (if has_after hooks then answers user rs else []))
unfolding handle_confirmation_requests
handle_confirmation_requests_lem none user rs = (
  replies-handle_loop (hooks_or_default none) user rs,
  told-handle_loop (hooks_or_default none) user rs,
)
handle_confirmation_requests_lem (some h) user rs =
    (replies-handle_loop h user rs, told-handle_loop h user rs)
