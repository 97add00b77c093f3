-- ===== src/Http/Router.antt =====
-- HttpRouter of Net/HTTP. A handler takes the request and the response and gives both back changed;
-- an empty `std::function` is `none`. The log lines are left out.
pub mod Table
use yy.Prelude.{
  ℕ, Bool, true, false, ◌&&◌, Option, none, some, List, [], ◌∷◌, if◌then◌else◌, length, Bytes,
  equal,
}
use yy.Http.Fields.{insert}
use yy.Http.Request.{HttpRequest, Method, unknown, get_method, post, put, delete, head}
use yy.Http.Response.{HttpResponse, set_status, not_found, not_found_text, not_found_body}

abbrev pub HttpHandler : Type 0
HttpHandler = HttpRequest → HttpResponse → HttpRequest × HttpResponse

pub record RouteEntry : Type 0 where
  pub url : Bytes
  pub method : Method
  pub handler : HttpHandler

pub record HttpRouter : Type 0 where
  pub routes : List RouteEntry
  pub default_handler : HttpHandler

-- `==` on the method
unfoldable pub method_eq : Method → Method → Bool
method_eq unknown unknown = true
method_eq get_method get_method = true
method_eq post post = true
method_eq put put = true
method_eq delete delete = true
method_eq head head = true
method_eq _ _ = false

abbrev pub matches : RouteEntry → Bytes → Method → Bool
matches e url method = equal e.url url && method_eq e.method method

-- "Content-Type"
abbrev pub content_type : Bytes
content_type =
    b'C' ∷ b'o' ∷ b'n' ∷ b't' ∷ b'e' ∷ b'n' ∷ b't' ∷ b'-' ∷ b'T' ∷ b'y' ∷ b'p' ∷ b'e' ∷ []

-- "text/plain"
abbrev pub text_plain : Bytes
text_plain = b't' ∷ b'e' ∷ b'x' ∷ b't' ∷ b'/' ∷ b'p' ∷ b'l' ∷ b'a' ∷ b'i' ∷ b'n' ∷ []

unfoldable pub default_not_found_handler : HttpHandler
default_not_found_handler req resp =
    let resp' = set_status resp not_found not_found_text in
    (
      req,
      record resp' {
        msg = record (resp'.msg) {
          body = not_found_body;
          headers = insert content_type text_plain resp'.msg.headers;
        };
      },
    )

abbrev pub init : HttpRouter
init = record { routes = []; default_handler = default_not_found_handler }

-- The loop that replaces the handler of an equal route, and `push_back` where there is none.
unfoldable pub put_route : List RouteEntry → Bytes → Method → HttpHandler → List RouteEntry
put_route [] url method handler = record { url = url; method = method; handler = handler } ∷ []
put_route (e ∷ es) url method handler =
    let rest = put_route es url method handler in
    if matches e url method then record e { handler = handler } ∷ es else e ∷ rest

unfoldable pub route : HttpRouter → Bytes → Method → Option HttpHandler → HttpRouter
route r url method none = r
route r url method (some handler) = record r { routes = put_route r.routes url method handler }

pub get : HttpRouter → Bytes → Option HttpHandler → HttpRouter
get r url handler = route r url get_method handler

pub post_route : HttpRouter → Bytes → Option HttpHandler → HttpRouter
post_route r url handler = route r url post handler

pub put_method : HttpRouter → Bytes → Option HttpHandler → HttpRouter
put_method r url handler = route r url put handler

pub del : HttpRouter → Bytes → Option HttpHandler → HttpRouter
del r url handler = route r url delete handler

pub head_route : HttpRouter → Bytes → Option HttpHandler → HttpRouter
head_route r url handler = route r url head handler

pub set_default_handler : HttpRouter → Option HttpHandler → HttpRouter
set_default_handler r none = r
set_default_handler r (some handler) = record r { default_handler = handler }

-- The search of `routeRequest` through the routes.
unfoldable pub find_route : List RouteEntry → Bytes → Method → Option HttpHandler
find_route [] url method = none
find_route (e ∷ es) url method =
    if matches e url method then some e.handler else find_route es url method

unfoldable pub route_request :
    HttpRouter → HttpRequest → HttpResponse → Bool × HttpRequest × HttpResponse
route_request r req resp = elim (find_route r.routes req.url req.method) [
  | some handler ↦ let (req', resp') = handler req resp in (true, req', resp')
  | none ↦ let (req', resp') = r.default_handler req resp in (false, req', resp')
]

unfoldable pub clear : HttpRouter → HttpRouter
clear r = record r { routes = [] }

pub size : HttpRouter → ℕ
size r = length r.routes
