-- ===== src/Chaos/Socket.antt =====
-- internal/chaos/runtime.go: the requests of socketRuntime, and what is taken of an answer.
use chaos_test.Common.{ℕ, Bool, true, Option, none, some, ◌++◌, leb, if◌then◌else◌}
use chaos_test.Chaos.{is_empty}
use chaos_test.Logs.Text.{Text, codes}

pub data Method : Type 0 where
  get : Method
  post : Method

-- What is sent with a request: to disconnect a container, by force or not, or to connect one, with
-- its address where it has one.
pub data Body : Type 0 where
  leaving : (container : Text) (force : Bool) → Body
  joining : (container : Text) (ip : Option Text) → Body

pub record Request : Type 0 where
  pub method : Method
  pub path : Text
  pub body : Option Body

unfoldable pub network_disconnect : (network container : Text) → Request
network_disconnect network container = record {
  method = post;
  path = codes "/networks/" ++ network ++ codes "/disconnect";
  body = some (leaving container true);
}

unfoldable pub network_connect : (network container ip : Text) → Request
network_connect network container ip = record {
  method = post;
  path = codes "/networks/" ++ network ++ codes "/connect";
  body = some (joining container (if is_empty ip then none else some ip));
}

posted : Text → Text → Request
posted c verb = record { method = post; path = codes "/containers/" ++ c ++ verb; body = none }

unfoldable pub pause : Text → Request
unfolding posted
pause c = posted c (codes "/pause")

unfoldable pub unpause : Text → Request
unfolding posted
unpause c = posted c (codes "/unpause")

unfoldable pub stop : Text → Request
unfolding posted
stop c = posted c (codes "/stop?t=10")

unfoldable pub start : Text → Request
unfolding posted
start c = posted c (codes "/start")

-- The engine's answer: none, or a status with the body.
pub data Reply : Type 0 where
  no_reply : Reply
  replied : (status : ℕ) (body : Text) → Reply

-- `do`, from the engine's answer; none for an error.
unfoldable pub take_reply : Reply → Option Text
take_reply no_reply = none
take_reply (replied status body) = if leb 300 status then none else some body
