-- ===== src/Server/Auth.antt =====
-- `BearerAuthMiddleware.dispatch` of server/auth.py: whether a request reaches the inner app. The
-- headers of a request are its `authorization` header, the empty text where it has none.
pub mod Access
use licitaciones_mcp.Base.{
  ℕ, ◌≡◌, Bool, true, false, not, ◌&&◌, ◌||◌, List, [], ◌∷◌, if◌then◌else◌, contains, list_eq,
  nat_eq, ◌==◌,
}
use licitaciones_mcp.Base.Result.{Result, ok, raised}
use licitaciones_mcp.Base.Text.{Text, codes, is_ascii}
use licitaciones_mcp.Base.Unicode.{Unicode}

pub record Middleware : Type 0 where
  pub token : Text
  pub exempt : List Text

pub record Request : Type 0 where
  pub path : Text
  pub authorization : Text

pub data Response : Type 0 where
  passed_on : Response
  unauthorized : Response

-- The first and the last part of `header.partition(" ")`.
unfoldable pub scheme_of : Text → Text
scheme_of [] = []
scheme_of (c ∷ s) = let rest = scheme_of s in if c == 0x20 then [] else c ∷ rest

unfoldable pub value_of : Text → Text
value_of [] = []
value_of (c ∷ s) = let rest = value_of s in if c == 0x20 then s else rest

-- `hmac.compare_digest` on two texts: it raises a `TypeError` where one of them is not ASCII.
unfoldable pub is_plain : Text → Bool
is_plain [] = true
is_plain (c ∷ s) = is_ascii c && is_plain s

unfoldable pub compare_digest : Text → Text → Result Text Bool
unfolding is_plain
compare_digest a b =
    if is_plain a && is_plain b
    then ok (a == b)
    else raised (codes "comparing strings with non-ASCII characters is not supported")

abbrev pub answer : Result Text Bool → Result Text Response
answer (raised e) = raised e
answer (ok true) = ok passed_on
answer (ok false) = ok unauthorized

module _ (U : Unicode) where
  -- The second test is made only where the first one is passed.
  unfoldable pub dispatch : Middleware → Request → Result Text Response
  unfolding scheme_of value_of compare_digest
  dispatch m r =
      if contains m.exempt r.path
      then ok passed_on
      else if not (U.lower (scheme_of r.authorization) == codes "bearer")
      then ok unauthorized
      else answer (compare_digest (value_of r.authorization) m.token)
