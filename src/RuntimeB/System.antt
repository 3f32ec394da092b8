-- ===== src/RuntimeB/System.antt =====
-- The running server as the handler and its message/stream iterators, and the requests that drive
-- it, in any order: each request is one step between two of which any other may come. tasks/get
-- changes nothing and is left out here.
pub mod Invariant
pub mod Reachable
pub mod Kept
pub mod Tasks
use ne_kiro_samples.Base.{
  ℕ, String, Option, none, some, List, [], ◌∷◌, ◌++◌, ◌⊎◌, inl, inr, get_elem?, set,
}
use ne_kiro_samples.Platform.{Library, Claims}
use ne_kiro_samples.RuntimeB.Fixture.{SendParams}
use ne_kiro_samples.RuntimeB.Handler.{Handler, on_cancel_task, new_handler}
use ne_kiro_samples.RuntimeB.Send.{on_send_message}
use ne_kiro_samples.RuntimeB.Stream.{Stream, StreamEvent, Signal, open_stream, resume}

pub record System : Type 0 where
  pub handler : Handler
  pub streams : List Stream

-- The claims are those of the request's credential.
pub data Operation : Type 0 where
  opens : Option Claims → Option SendParams → Operation
  resumes : (index : ℕ) → Signal → Operation
  cancels : Option Claims → Option String → Operation
  sends : Option Claims → Option SendParams → Operation

abbrev pub after_open : System → Handler × (Stream ⊎ StreamEvent) → System
after_open sys (h, inl s) = record { handler = h; streams = sys.streams ++ s ∷ [] }
after_open sys (h, inr e) = record sys { handler = h }

abbrev pub after_resume : System → ℕ → Handler × Stream → System
after_resume sys i (h, s) = record { handler = h; streams = set sys.streams i s }

abbrev pub resume_stream : Library → System → ℕ → Signal → Option Stream → System
resume_stream lib sys i signal none = sys
resume_stream lib sys i signal (some s) = after_resume sys i (resume lib sys.handler s signal)

unfoldable pub step : Library → System → Operation → System
step lib sys (opens claims params) = after_open sys (open_stream lib sys.handler claims params)
step lib sys (resumes i signal) = resume_stream lib sys i signal (get_elem? sys.streams i)
step lib sys (cancels claims id) = record sys {
  handler = (on_cancel_task lib sys.handler claims id).0;
}
step lib sys (sends claims params) = record sys {
  handler = (on_send_message lib sys.handler claims params).0;
}

unfoldable pub run : Library → System → List Operation → System
run lib sys [] = sys
run lib sys (o ∷ os) = run lib (step lib sys o) os

abbrev pub idle : Handler → System
idle h = record { handler = h; streams = [] }
