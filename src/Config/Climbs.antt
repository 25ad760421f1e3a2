-- ===== src/Config/Climbs.antt =====
-- crates/voice_server/src/logging.rs: what `normalize_path` makes of `..`.
use voice_ai.Base.{
  ℕ, zero, suc, ◌≡◌, refl, sym, ap, ◌∙◌, List, [], ◌∷◌, ◌++◌, map, reverse, append-nil, Str, drop,
  replicate,
}
use mathlib.Core.List.{reverse_aux, reverse_aux-eq, reverse_aux-reverse_aux-nil}
use voice_ai.Config.Paths.{Component, parent_dir, normal, push_all, normalize_path}

map-reverse_aux {ℓ κ} :
    {A : Type ℓ} {B : Type κ} (f : A → B) (xs ys : List A)
    → reverse_aux (map f xs) (map f ys) ≡ map f (reverse_aux xs ys)
map-reverse_aux f [] ys = refl
map-reverse_aux f (x ∷ xs) ys = map-reverse_aux f xs (x ∷ ys)

pushed :
    (ns : List Str) (rest : List Component) (out : List Str)
    → push_all (map normal ns ++ rest) (map normal out)
      ≡ push_all rest (map normal (reverse_aux ns out))
pushed [] rest out = refl
pushed (n ∷ ns) rest out = pushed ns rest (n ∷ out)

stays :
    (k : ℕ) (rest : List Component)
    → push_all (replicate k parent_dir ++ rest) [] ≡ push_all rest []
stays zero rest = refl
stays (suc k) rest = stays k rest

popped :
    (k : ℕ) (out : List Str) (rest : List Component)
    → push_all (replicate k parent_dir ++ rest) (map normal out)
      ≡ push_all rest (map normal (drop k out))
popped zero out rest = refl
popped (suc k) [] rest = stays k rest
popped (suc k) (r ∷ out) rest = popped k out rest

climbed :
    (ns : List Str) (k : ℕ) (ms : List Str)
    → push_all (map normal ns ++ (replicate k parent_dir ++ map normal ms)) []
      ≡ map normal (reverse_aux ms (drop k (reverse ns)))
climbed ns k ms =
    pushed ns (replicate k parent_dir ++ map normal ms) []
    ∙ popped k (reverse ns) (map normal ms)
    ∙ ap (λ l. push_all l (map normal (drop k (reverse ns)))) (sym (append-nil (map normal ms)))
    ∙ pushed ms [] (drop k (reverse ns))

-- A relative path of names, then of any number of `..`, then of names again becomes the first names
-- without as many at their end, and the other names: the `..` that go beyond the first name are lost.
pub normalize_path-climbs :
    (ns : List Str) (k : ℕ) (ms : List Str)
    → normalize_path (map normal ns ++ (replicate k parent_dir ++ map normal ms))
      ≡ map normal (reverse (drop k (reverse ns)) ++ ms)
unfolding normalize_path
normalize_path-climbs ns k ms =
    let kept = drop k (reverse ns) in
    ap reverse (climbed ns k ms)
    ∙ map-reverse_aux normal (reverse_aux ms kept) []
    ∙ ap (map normal) (reverse_aux-reverse_aux-nil ms kept ∙ reverse_aux-eq kept ms)
