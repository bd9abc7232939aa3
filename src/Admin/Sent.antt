-- ===== src/Admin/Sent.antt =====
-- Which children have had a forwarded admin request, and the reply to it.
use agent_lb_proxy.Prelude.{
  ℕ, ◌+◌, ◌≡◌, refl, ap, ◌∙◌, Bool, true, false, String, Option, none, some, List, [], ◌∷◌, ◌++◌,
  ltb, length, length-append, arith, Bool-cases, inl, inr, if◌then◌else◌,
}
use agent_lb_proxy.Admin.{
  ForwardReply, forward_error, forward_answer, ForwardResult, Search, search_children,
  continue_search, take_reply, take_answer, find_direct_child_proxy_matches, forward_to_matches,
  forward_admin_to_named_proxy,
}
use agent_lb_proxy.Admin.Forward.{
  unknown_target, answer_of, answers, any_error, expected, search_of, search_expected,
}

abbrev pub at_most : ℕ → ℕ → ℕ
at_most k n = if ltb k n then k else n

-- How many more answers there are at the end of the search.
abbrev left : Option (ℕ × String) → ℕ
left none = 2
left (some a) = 1

abbrev rest_of : (Search → ForwardResult × List String) → Option Search → List String
rest_of next none = []
rest_of next (some s) = (next s).1

continue_search-sent :
    (next : Search → ForwardResult × List String) (url : String) (o : Option Search)
    → (continue_search next url o).1 ≡ url ∷ rest_of next o
unfolding continue_search
continue_search-sent next url none = refl
continue_search-sent next url (some s) = refl

abbrev Sends : (String → ForwardReply) → (Search → ForwardResult × List String) → ℕ → Type 0
Sends forward next n =
    (matched : Option (ℕ × String)) (failed : Bool)
    → length (answers forward (next (search_of matched failed)).1) ≡ at_most (left matched) n

-- The number of answers of one reply.
abbrev count_of : ForwardReply → ℕ
count_of o = length (answer_of o)

rest_of_answer-sent :
    (forward : String → ForwardReply) (next : Search → ForwardResult × List String) (status : ℕ)
    (code : String) (n : ℕ) (matched : Option (ℕ × String)) (failed : Bool)
    → Sends forward next n
    → length (
        answer_of (forward_answer status code)
        ++ answers forward
            (rest_of next (take_reply (forward_answer status code) (search_of matched failed))))
      ≡ at_most (left matched) (count_of (forward_answer status code) + n)
unfolding take_reply take_answer
rest_of_answer-sent forward next status code n none failed ih =
    elim (Bool-cases (unknown_target status code)) [
      | inl q ↦ rw q (ground (arith, ih none failed))
      | inr q ↦ rw q (ground (arith, ih (some (status, code)) failed))
    ]
rest_of_answer-sent forward next status code n (some a) failed ih =
    elim (Bool-cases (unknown_target status code)) [
      | inl q ↦ rw q (ground (arith, ih (some a) failed))
      | inr q ↦ rw q (ground arith)
    ]

rest_of-sent :
    (forward : String → ForwardReply) (next : Search → ForwardResult × List String)
    (o : ForwardReply) (n : ℕ) (matched : Option (ℕ × String)) (failed : Bool)
    → Sends forward next n
    → length
        (answer_of o ++ answers forward (rest_of next (take_reply o (search_of matched failed))))
      ≡ at_most (left matched) (count_of o + n)
unfolding take_reply
rest_of-sent forward next (forward_error e) n matched failed ih = ground (arith, ih matched true)
rest_of-sent forward next (forward_answer status code) n matched failed ih =
    rest_of_answer-sent forward next status code n matched failed ih

search_children-sent :
    (forward : String → ForwardReply) (urls : List String)
    → Sends forward (search_children forward urls) (length (answers forward urls))
unfolding search_children
search_children-sent forward [] none failed = refl
search_children-sent forward [] (some a) failed = refl
search_children-sent forward (url ∷ urls) matched failed =
    let o = take_reply (forward url) (search_of matched failed) in
    let next = search_children forward urls in
    ap (λ l. length (answers forward l)) (continue_search-sent next url o)
    ∙ rest_of-sent forward next (forward url) (length (answers forward urls)) matched failed
        (search_children-sent forward urls)
    ∙ ap (at_most (left matched))
        (ground (arith, length-append (answer_of (forward url)) (answers forward urls)))

-- When no direct child has the target's name and none of them failed to say its name, the request is sent
-- to the children in turn. If exactly one takes it, its answer is passed on; if several do, the reply is
-- 409, and two of them have taken it by then; with none it is 502 if a child failed, and 404 if not.
pub forward_admin-expected :
    (equal_fold : String → String → Bool) (name_of : String → Option String)
    (forward : String → ForwardReply) (target url : String) (urls : List String)
    → find_direct_child_proxy_matches equal_fold name_of target (url ∷ urls) ≡ some []
    → let r = forward_admin_to_named_proxy equal_fold name_of forward target (url ∷ urls) in
      (r.0 ≡ expected (answers forward (url ∷ urls)) (any_error forward (url ∷ urls)))
      × (length (answers forward r.1) ≡ at_most 2 (length (answers forward (url ∷ urls))))
unfolding forward_admin_to_named_proxy forward_to_matches
forward_admin-expected equal_fold name_of forward target url urls e = rw e (
  search_expected forward (url ∷ urls) none false,
  search_children-sent forward (url ∷ urls) none false,
)
