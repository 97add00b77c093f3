-- ===== src/Http/Router/Table.antt =====
-- The routes as a table from urls and methods to handlers.
use yy.Prelude.{
  ℕ, ◌+◌, ◌≡◌, refl, ◌↔◌, inl, inr, Bool, true, false, ◌&&◌, Option, none, some, List, [], ◌∷◌,
  arith, if◌then◌else◌, Bool-cases, length, Bytes, equal, equal_iff,
}
use yy.Http.Request.{HttpRequest, Method, unknown}
use yy.Http.Response.{HttpResponse}
use yy.Http.Router.{
  HttpHandler, RouteEntry, HttpRouter, method_eq, matches, put_route, route, find_route,
  route_request, clear, size,
}

method_eq_iff : (a b : Method) → (method_eq a b ≡ true) ↔ (a ≡ b)
unfolding method_eq
method_eq_iff unknown b = ground arith
method_eq_iff _ b = ground arith

abbrev same : Bytes → Method → Bytes → Method → Bool
same u m u' m' = equal u u' && method_eq m m'

find_route-put_route :
    (es : List RouteEntry) (u : Bytes) (m : Method) (h : HttpHandler) (u' : Bytes) (m' : Method)
    → find_route (put_route es u m h) u' m'
      ≡ (if same u m u' m' then some h else find_route es u' m')
unfolding find_route put_route
find_route-put_route [] u m h u' m' = refl
find_route-put_route (e ∷ es) u m h u' m' = ground (
  arith,
  equal_iff e.url u,
  equal_iff e.url u',
  equal_iff u u',
  method_eq_iff e.method m,
  method_eq_iff e.method m',
  method_eq_iff m m',
  find_route-put_route es u m h u' m',
)

-- After `route` with a handler, a request for that url and method goes to that handler and is
-- reported as routed, and every other request is treated as before. With an empty handler nothing
-- changes.
pub route_request-route :
    (r : HttpRouter) (u : Bytes) (m : Method) (h : HttpHandler) (req : HttpRequest)
    (resp : HttpResponse)
    → (route_request (route r u m (some h)) req resp ≡ (
        if same u m req.url req.method
        then (true, (h req resp).0, (h req resp).1)
        else route_request r req resp))
      × (route r u m none ≡ r)
unfolding route_request route
route_request-route r u m h req resp = (
  rw (find_route-put_route r.routes u m h req.url req.method, route_request)
      (elim (Bool-cases (same u m req.url req.method)) [ inl t ↦ rw t | inr f ↦ rw f ]),
  refl,
)

-- the number of routes that a `route` adds
abbrev added : Option HttpHandler → ℕ
added none = 1
added (some h) = 0

length-put_route :
    (es : List RouteEntry) (u : Bytes) (m : Method) (h : HttpHandler)
    → length (put_route es u m h) ≡ length es + added (find_route es u m)
unfolding put_route find_route
length-put_route [] u m h = refl
length-put_route (e ∷ es) u m h = elim (Bool-cases (matches e u m)) [
  | inl t ↦ rw t (omega arith)
  | inr f ↦ rw f (omega (arith, length-put_route es u m h))
]

-- no two routes for one url and method
unfoldable pub AreDistinct : List RouteEntry → Type 0
AreDistinct [] = Unit
AreDistinct (e ∷ es) = (find_route es e.url e.method ≡ none) × AreDistinct es

put_route_apart :
    (es : List RouteEntry) (e : RouteEntry) (u : Bytes) (m : Method) (h : HttpHandler)
    → matches e u m ≡ false
    → find_route es e.url e.method ≡ none
    → find_route (put_route es u m h) e.url e.method ≡ none
put_route_apart es e u m h f d =
    let other : same u m e.url e.method ≡ false = ground (
      arith,
      equal_iff e.url u,
      equal_iff u e.url,
      method_eq_iff e.method m,
      method_eq_iff m e.method,
    ) in
    rw (find_route-put_route es u m h e.url e.method) (rw other d)

put_route-AreDistinct :
    (es : List RouteEntry) (u : Bytes) (m : Method) (h : HttpHandler)
    → AreDistinct es
    → AreDistinct (put_route es u m h)
unfolding put_route AreDistinct find_route
put_route-AreDistinct [] u m h d = (refl, tt)
put_route-AreDistinct (e ∷ es) u m h d = elim (Bool-cases (matches e u m)) [
  | inl t ↦ rw t d
  | inr f ↦ rw f (put_route_apart es e u m h f d.0, put_route-AreDistinct es u m h d.1)
]

-- `route` keeps the routes distinct, and the number of routes grows by one exactly when the url and
-- method had no route; `clear` leaves none, and the search then finds nothing.
pub route-AreDistinct :
    (r : HttpRouter) (u : Bytes) (m : Method) (h : HttpHandler)
    → AreDistinct r.routes
    → AreDistinct (route r u m (some h)).routes
      × (size (route r u m (some h)) ≡ size r + added (find_route r.routes u m))
      × (size (clear r) ≡ 0)
      × (find_route (clear r).routes u m ≡ none)
unfolding route size clear find_route
route-AreDistinct r u m h d =
    (put_route-AreDistinct r.routes u m h d, length-put_route r.routes u m h, refl, refl)
