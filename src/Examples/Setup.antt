-- ===== src/Examples/Setup.antt =====
-- Concrete instances of the interfaces, and test data.
use mathlib.Core.List.{append_assoc}
use link_r.Prelude.{
  ℕ, ◌+◌, ◌-◌, ◌*◌, ◌/◌, Option, none, some, List, [], ◌∷◌, ◌++◌, Bytes, codes, append-nil, ltb,
  true, false, max, nat_beq, refl, arith, any, length, insert_asc, IsAscending,
  insert_asc-IsAscending, any-insert_asc, ◌==◌, nat_eq,
}
use link_r.External.{UrlApi, Hasher, Float, IsOrdered, Bitmap}
use link_r.Resource.ResourceKind.{html}
use link_r.Metric.{dot}
use link_r.Index.Builder.{Document, IndexBuilder, new}

pub record Url : Type 0 where
  pub host : Option Bytes
  pub path : Bytes
  pub query : Option Bytes

-- A reference is a path on the same host.
instance abbrev pub url_api : UrlApi Url
url_api = record {
  scheme = λ url. codes "http";
  host_str = λ url. url.host;
  port = λ url. none;
  path = λ url. url.path;
  query = λ url. url.query;
  join = λ base path. some (record base { path = path });
  without_fragment = λ url. url;
}

-- A digest in base 257.
abbrev pub digest : Bytes → ℕ
digest [] = 0
digest (c ∷ cs) = c + 1 + 257 * digest cs

instance abbrev pub hasher : Hasher
hasher = record {
  State = Bytes;
  new = [];
  update = λ s t. s ++ t;
  digest64 = digest;
  update-nil = append-nil;
  update-append = append_assoc;
}

instance abbrev pub float : Float ℕ
float = record {
  zero = 0;
  half = 0;
  one = 1;
  add = λ a b. a + b;
  sub = λ a b. a - b;
  mul = λ a b. a * b;
  div = λ a b. a / b;
  neg = λ a. a;
  sqrt = λ a. a;
  ln = λ a. a;
  max = λ a b. max a b;
  gt = λ a b. ltb b a;
  eq = nat_beq;
  from_nat = λ n. n;
  sort_panics = λ hits. false;
}

pub float-IsOrdered : IsOrdered ℕ
float-IsOrdered = record {
  asym = λ a b h. ground arith;
  cotrans = λ a b c h k. ground arith;
  eq_of_not_gt = λ a b h k. ground arith;
  sorts = λ hits. refl;
}

-- A set as the list of what was inserted.
abbrev pub ascending : List ℕ → List ℕ
ascending [] = []
ascending (i ∷ s) = insert_asc i (ascending s)

pub ascending-IsAscending : (s : List ℕ) → IsAscending (ascending s)
ascending-IsAscending [] = tt
ascending-IsAscending (i ∷ s) = insert_asc-IsAscending i (ascending s) (ascending-IsAscending s)

instance abbrev pub bitmap : Bitmap
bitmap = record {
  Set = List ℕ;
  new = [];
  insert = λ s i. i ∷ s;
  contains = λ s i. any (λ j. j == i) (ascending s);
  iter = ascending;
  len = λ s. length (ascending s);
  serialize = λ s. s;
  deserialize = λ s. some s;
  contains-new = λ i. refl;
  contains-insert = λ s i j. any-insert_asc i j (ascending s);
  iter-new = refl;
  iter-insert = λ s i. refl;
  iter-IsAscending = ascending-IsAscending;
  contains-iter = λ s i. refl;
  len-iter = λ s. refl;
  deserialize-serialize = λ s. refl;
}

abbrev pub root : Url
root = record { host = some (codes "a.dev"); path = codes "/docs"; query = none }

-- The root as another link may write it.
abbrev pub root_slash : Url
root_slash = record { host = some (codes "A.dev"); path = codes "/docs/"; query = some [] }

abbrev pub page_b : Url
page_b = record { host = some (codes "a.dev"); path = codes "/docs/b"; query = none }

abbrev pub document : Url → ℕ → Document Url ℕ
document url content_hash = record {
  url = url;
  kind = html;
  content_hash = content_hash;
  title = none;
  snippet = [];
  lang = none;
  tags = codes "t" ∷ [];
  terms = codes "a" ∷ codes "b" ∷ [];
  vector = 1 ∷ 2 ∷ [];
  edges = [];
  fetched_at_ms = 5;
  etag = none;
  pinned = true;
}

abbrev pub empty : IndexBuilder ℕ
empty = new 1 1 2 dot 0
