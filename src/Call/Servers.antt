-- ===== src/Call/Servers.antt =====
-- Calls: the servers that the check lets through (apps/call-core/src/protocol.js: parseIceServers).
use mathlib.Core.Option.{some-injective}
use mathlib.Core.Path.{subst}
use cads_agent_marketplace.Common.{
  &&-both, Bool, List, Option, [], all, ap, arith, false, if◌then◌else◌, leb, length, list_eq, ltb,
  nat_eq, none, refl, some, suc, true, ◌&&◌, ◌==◌, ◌||◌, ◌∷◌, ◌≡◌,
}
use cads_agent_marketplace.Call.Encode.{fit_servers, fits_server}
use cads_agent_marketplace.Call.Message.{Server, Text}
use cads_agent_marketplace.Call.Parse.{
  all_some, concat_of, items, maybe_text, server_of, servers_of, url_of, urls_of, ◌>>=◌,
}
use cads_agent_marketplace.Call.Values.{
  Value, array, credential_key, is_ice_url, prop, text, urls_key, username_key,
}

module _ {A B : Type 0} where
  pub bind-some :
      (o : Option A) (f : A → Option B) (b : B)
      → (o >>= f) ≡ some b
      → (a : A) × (o ≡ some a) × (f a ≡ some b)
  bind-some none f b h = cc
  bind-some (some a) f b h = (a, refl, h)

module _ {A B : Type 0} where
  -- A property of every value of a list that `all_some` gives.
  pub all_some-all :
      (f : A → Option B) (p : B → Bool)
      → ((x : A) (y : B) → f x ≡ some y → p y ≡ true)
      → (xs : List A) (ys : List B) → all_some f xs ≡ some ys
      → (all p ys ≡ true) × (length ys ≡ length xs)
  unfolding all_some
  all_some-all f p each [] ys h =
      subst (λ zs. (all p zs ≡ true) × (length zs ≡ 0)) (some-injective [] ys h) (refl, refl)
  all_some-all f p each (x ∷ xs) ys h =
      let (y, ey, hy) = bind-some (f x) _ ys h in
      let (zs, ez, hz) = bind-some (all_some f xs) _ ys hy in
      let (good, same) = all_some-all f p each xs zs ez in
      subst (λ us. (all p us ≡ true) × (length us ≡ suc (length xs)))
        (some-injective (y ∷ zs) ys hz) (&&-both (p y) (all p zs) (each x y ey) good, ap suc same)

pub if-some :
    {A : Type 0} (b : Bool) (o : Option A) (a : A)
    → (if b then none else o) ≡ some a
    → (b ≡ false) × (o ≡ some a)
if-some true o a h = cc
if-some false o a h = (refl, h)

pub only-some :
    {A : Type 0} (b : Bool) (x a : A) → (if b then some x else none) ≡ some a → (b ≡ true) × (x ≡ a)
only-some true x a h = (refl, some-injective x a h)
only-some false x a h = cc

url_of-good : (x : Value) (u : Text) → url_of x ≡ some u → is_ice_url u ≡ true
url_of-good (text t) u h =
    let (good, same) = only-some (is_ice_url t) t u h in subst (λ v. is_ice_url v ≡ true) same good
url_of-good _ u h = cc

urls_of-good :
    (x : Value) (us : List Text)
    → urls_of x ≡ some us
    → (ltb 0 (length us) && (leb (length us) 4 && all is_ice_url us)) ≡ true
unfolding urls_of
urls_of-good x us h =
    let xs : List Value = concat_of x in
    let (few, found) = if-some (length xs == 0 || ltb 4 (length xs)) _ us h in
    let (good, same) = all_some-all url_of is_ice_url url_of-good xs us found in ground arith

server_of-good : (x : Value) (v : Server) → server_of x ≡ some v → fits_server v ≡ true
unfolding server_of
server_of-good x v h =
    let (us, eu, hu) = bind-some (urls_of (prop urls_key x)) _ v h in
    let (name, en, hn) = bind-some (maybe_text (prop username_key x)) _ v hu in
    let (credential, ec, hc) = bind-some (maybe_text (prop credential_key x)) _ v hn in
    subst (λ w. fits_server w ≡ true)
      (some-injective (record { urls = us; username = name; credential = credential }) v hc)
      (urls_of-good (prop urls_key x) us eu)

fit-found :
    (xs : List Value) (b : Bool) (o : Option (List Server))
    → b ≡ ltb 4 (length xs)
    → all_some server_of xs ≡ o
    → fit_servers (if b then none else o) ≡ true
fit-found xs true o few found = refl
fit-found xs false none few found = refl
fit-found xs false (some vs) few found =
    let (good, same) = all_some-all server_of fits_server server_of-good xs vs found in ground arith

pub servers_of-good : (x : Value) → fit_servers (servers_of x) ≡ true
servers_of-good (array xs) = fit-found (items xs) _ _ refl refl
servers_of-good _ = refl
