-- ===== src/Controller/Patch/Digest.antt =====
-- The text that the hash of a resource set is taken of determines its manifests.
use k1s_k8s_operator.Prelude.{
  String, ◌<>◌, ◌≡◌, ◌≢◌, refl, ap, sym, ◌∙◌, Char, code, List, [], ◌∷◌, All,
}
use text.Mathlib.TextLemmas.{
  nil≢cons, cons≢nil, nil-append, cons-append, head-eq_of_cons-eq, tail-eq_of_cons-eq,
}
use k1s_k8s_operator.Go.Text.{char_of}
use k1s_k8s_operator.Controller.Patch.{digest_input}

-- A text with no zero byte, as every JSON text is.
abbrev pub NoNul : String → Type 0
NoNul String.[] = Unit
NoNul (String.◌∷◌ c s) = (code c ≢ 0) × NoNul s

code-nul : code (char_of 0) ≡ 0
unfolding char_of
code-nul = refl

nul-not_head :
    (ms : List String)
    → (c : Char) → (rest : String) → code c ≢ 0
    → digest_input ms ≢ String.◌∷◌ c rest
unfolding digest_input
nul-not_head [] c rest h e = nil≢cons e
nul-not_head (m ∷ ms) c rest h e = h (ap code (sym (head-eq_of_cons-eq e)) ∙ code-nul)

-- Where a manifest without a zero byte ends in the text.
split_at_nul :
    (m n : String)
    → (ms ns : List String) → NoNul m
    → NoNul n
    → m <> digest_input ms ≡ n <> digest_input ns
    → (m ≡ n) × (digest_input ms ≡ digest_input ns)
split_at_nul String.[] String.[] ms ns hm hn e =
    (refl, sym (nil-append (digest_input ms)) ∙ e ∙ nil-append (digest_input ns))
split_at_nul String.[] (String.◌∷◌ d n) ms ns hm hn e = absurd (
    nul-not_head ms d _ (hn.0)
      (sym (nil-append (digest_input ms)) ∙ e ∙ cons-append d n (digest_input ns)))
split_at_nul (String.◌∷◌ c m) String.[] ms ns hm hn e = absurd (
    nul-not_head ns c _ (hm.0)
      (sym (nil-append (digest_input ns)) ∙ sym e ∙ cons-append c m (digest_input ms)))
split_at_nul (String.◌∷◌ c m) (String.◌∷◌ d n) ms ns (_, hm) (_, hn) e =
    let e' = sym (cons-append c m (digest_input ms)) ∙ e ∙ cons-append d n (digest_input ns) in
    let rest = split_at_nul m n ms ns hm hn (tail-eq_of_cons-eq e') in
    ((λ i. String.◌∷◌ (head-eq_of_cons-eq e' i) (rest.0 i)), rest.1)

-- Two lists of manifests, none of which holds a zero byte, that give the digest the same text are equal:
-- a manifest moved, split or joined changes what is hashed.
pub digest_input-injective :
    (ms ns : List String)
    → All NoNul ms
    → All NoNul ns
    → digest_input ms ≡ digest_input ns
    → ms ≡ ns
unfolding digest_input
digest_input-injective [] [] hm hn e = refl
digest_input-injective [] (n ∷ ns) hm hn e = absurd (nil≢cons e)
digest_input-injective (m ∷ ms) [] hm hn e = absurd (cons≢nil e)
digest_input-injective (m ∷ ms) (n ∷ ns) (hm, hms) (hn, hns) e =
    let parts = split_at_nul m n ms ns hm hn (tail-eq_of_cons-eq e) in
    λ i. parts.0 i ∷ digest_input-injective ms ns hms hns (parts.1) i
