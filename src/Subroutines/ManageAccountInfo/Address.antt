-- ===== src/Subroutines/ManageAccountInfo/Address.antt =====
-- The workspace path that ManageAccountInfo takes from the workspace's URL.
use Prim.Native.String.{String, ◌++◌ as ◌<>◌}
use account_operator.Base.{
  ◌≡◌, refl, ◌⊎◌, inl, inr, Bool-cases, ◌==◌, ◌||◌, sym, ◌∙◌, ◌≢◌, ◌↔◌, List, [], ◌∷◌, ◌++◌, ◌-◌,
  some, get_elem?, get_elem?-last, last, length, length-append, ltb, false, true, ◌<◌, ap, arith,
  eq_iff,
}
use text.Mathlib.TextLemmas.{cons-append, nil-append}
use account_operator.Base.Text.{split, trim_space}
use account_operator.Base.Text.SplitLaws
use account_operator.Base.Text.SplitLaws.{Lacks}
use account_operator.Kcp.{Workspace}
use account_operator.Platform.{ok, err}
use account_operator.Exec.{failed}
use account_operator.Subroutines.ManageAccountInfo.{retrieve_current_workspace_path}

-- The URL is `a/b/path`, and `path` is not blank and holds no slash.
pub record IsAddress (url path : String) : Type 0 where
  pub a : String
  pub b : String
  pub whole : url ≡ a <> ("/" <> (b <> ("/" <> path)))
  pub last : Lacks b'/' path
  pub visible : trim_space path ≢ ""

slash-append : (s : String) → "/" <> s ≡ String.◌∷◌ "/" s
slash-append s = cons-append "/" "" s ∙ ap (String.◌∷◌ "/") (nil-append s)

segments-append :
    (a b path : String)
    → Lacks b'/' path
    → split b'/' (a <> ("/" <> (b <> ("/" <> path))))
      ≡ split b'/' a ++ (split b'/' b ++ (path ∷ []))
segments-append a b path h = rw (
  slash-append (b <> ("/" <> path)),
  slash-append path,
  SplitLaws.split-append "/" a,
  SplitLaws.split-append "/" b,
  SplitLaws.split_of_Lacks b'/' path h,
)

last-append : (xs ys : List String) (p : String) → last (xs ++ (ys ++ (p ∷ []))) ≡ p
last-append [] [] p = refl
last-append [] (y ∷ []) p = refl
last-append [] (y ∷ z ∷ ys) p = last-append [] (z ∷ ys) p
last-append (x ∷ []) [] p = refl
last-append (x ∷ []) (y ∷ ys) p = last-append [] (y ∷ ys) p
last-append (x ∷ z ∷ xs) ys p = last-append (z ∷ xs) ys p

three_parts :
    (xs ys : List String) (p : String)
    → xs ≢ []
    → ys ≢ []
    → ltb (length (xs ++ (ys ++ (p ∷ [])))) 3 ≡ false
three_parts [] ys p hx hy = absurd (hx refl)
three_parts (x ∷ xs) [] p hx hy = absurd (hy refl)
three_parts (x ∷ xs) (y ∷ ys) p hx hy =
    ground (arith, length-append xs (y ∷ (ys ++ (p ∷ []))), length-append ys (p ∷ []))

segments-IsAddress :
    (url : String) (ps : List String)
    → split b'/' url ≡ ps
    → ltb (length ps) 3 ≡ false
    → trim_space (last ps) ≢ ""
    → IsAddress url (last ps)
segments-IsAddress url [] e h v = absurd (ground arith)
segments-IsAddress url (x ∷ []) e h v = absurd (ground arith)
segments-IsAddress url (x ∷ y ∷ []) e h v = absurd (ground arith)
segments-IsAddress url (x ∷ y ∷ z ∷ ps) e h v = record {
  a = x;
  b = SplitLaws.join "/" (SplitLaws.init "/" (y ∷ z ∷ ps));
  whole =
      sym (SplitLaws.join-split "/" url)
      ∙ ap (SplitLaws.join "/") e
      ∙ rw (slash-append, slash-append, SplitLaws.join-init-last "/" y z ps);
  last = SplitLaws.last-Lacks b'/' (x ∷ y ∷ z ∷ ps) (rw e at (SplitLaws.split-Lacks b'/' url));
  visible = v;
}

-- `split[len(split)-1]`
last_segment :
    (url : String)
    → get_elem? (split b'/' url) (length (split b'/' url) - 1) ≡ some (last (split b'/' url))
last_segment url = get_elem?-last (split b'/' url) (SplitLaws.split-ne-nil b'/' url)

split-empty : split b'/' "" ≡ "" ∷ []
unfolding split
split-empty = refl

trim_space-empty : trim_space "" ≡ ""
unfolding trim_space
trim_space-empty = refl

retrieve_of_address :
    (ws : Workspace) (path : String)
    → IsAddress ws.spec.url path
    → retrieve_current_workspace_path ws ≡ ok (path, ws.spec.url)
unfolding retrieve_current_workspace_path
retrieve_of_address ws path i =
    let u = ws.spec.url in
    let e : split b'/' u ≡ split b'/' i.a ++ (split b'/' i.b ++ (path ∷ [])) =
      ap (split b'/') i.whole ∙ segments-append i.a i.b path i.last in
    let long : ltb (length (split b'/' u)) 3 ≡ false =
      rw e (
        three_parts _ _ path (SplitLaws.split-ne-nil b'/' i.a) (SplitLaws.split-ne-nil b'/' i.b)) in
    let at_end : last (split b'/' u) ≡ path =
      rw e (last-append (split b'/' i.a) (split b'/' i.b) path) in
    let filled : u ≢ "" = λ h. ground (arith, ap (split b'/') h, split-empty) in
    let seen : path ≢ "" = λ h. i.visible (ap trim_space h ∙ trim_space-empty) in
    ground
      (arith, eq_iff u "", eq_iff path "", eq_iff (trim_space path) "", i.visible, last_segment u)

-- The last segment of an URL is blank.
abbrev pub IsBlank : String → Type 0
IsBlank url = trim_space (last (split b'/' url)) ≡ ""

last-IsBlank :
    (url : String)
    → (last (split b'/' url) == "" || trim_space (last (split b'/' url)) == "") ≡ true
    → IsBlank url
last-IsBlank url h = elim (Bool-cases (last (split b'/' url) == "")) [
  | inl empty ↦ ap trim_space ((eq_iff _ _).0 empty) ∙ trim_space-empty
  | inr filled ↦ (eq_iff _ _).0 (rw filled at h)
]

-- Whatever the URL is, the last segment is read inside the bounds of the segments, without a panic.
-- The function returns a path with the URL; or it says that the URL is empty, and then the URL is
-- or its last segment is blank; or it says that the URL is invalid, and then the URL has fewer than
-- three segments.
pub retrieve_bounds :
    (ws : Workspace)
    → ((path : String) × (retrieve_current_workspace_path ws ≡ ok (path, ws.spec.url)))
      ⊎ ((retrieve_current_workspace_path ws ≡ err (failed "workspace URL is empty"))
          × ((ws.spec.url ≡ "") ⊎ IsBlank ws.spec.url))
      ⊎ ((retrieve_current_workspace_path ws ≡ err (failed "workspace URL is invalid"))
          × (length (split b'/' ws.spec.url) < 3))
unfolding retrieve_current_workspace_path
retrieve_bounds ws =
    let segments = split b'/' ws.spec.url in
    let e = last_segment ws.spec.url in
    elim (Bool-cases (ws.spec.url == "")) [
      | inl empty ↦ inr (inl (ground arith, inl ((eq_iff _ _).0 empty)))
      | inr filled ↦ elim (Bool-cases (ltb (length segments) 3)) [
        | inl short ↦ inr (inr (ground arith, ground (arith, short)))
        | inr long ↦ elim (Bool-cases (last segments == "" || trim_space (last segments) == "")) [
          | inl blank ↦ inr (inl (ground arith, inr (last-IsBlank ws.spec.url blank)))
          | inr seen ↦ inl (last segments, ground arith)
        ]
      ]
    ]

-- The path and the URL are returned exactly if the URL is the workspace's, reads `a/b/path` for
-- some texts `a` and `b`, and `path` holds no slash and more than white space.
pub retrieve_iff :
    (ws : Workspace) (path url : String)
    → (retrieve_current_workspace_path ws ≡ ok (path, url))
      ↔ ((url ≡ ws.spec.url) × IsAddress ws.spec.url path)
unfolding retrieve_current_workspace_path
retrieve_iff ws path url = (
  λ h.
      let e : path ≡ last (split b'/' ws.spec.url) = ground (arith, last_segment ws.spec.url) in
      (
        ground arith,
        rw e (
            segments-IsAddress ws.spec.url _ refl (ground arith) (λ v. ground (
              arith,
              last_segment ws.spec.url,
              eq_iff (trim_space (last (split b'/' ws.spec.url))) "",
            ))),
      ),
  λ (e, i). retrieve_of_address ws path i ∙ ap (λ x. ok (path, x)) (sym e),
)
