-- ===== src/Admin/Forward.antt =====
-- Which reply a forwarded admin request gets, and which children have had the request.
use agent_lb_proxy.Prelude.{
  ℕ, ◌≡◌, refl, Bool, true, false, ◌&&◌, ◌||◌, String, Option, none, some, List, [], ◌∷◌, ◌++◌,
  str_eq, ◌==◌, Bool-cases, inl, inr, if◌then◌else◌,
}
use agent_lb_proxy.Admin.{
  target_not_found, target_ambiguous, target_unavailable, ForwardReply, forward_error,
  forward_answer, ForwardResult, passed_on, refused, Search, search_end, search_children,
  continue_search, take_reply, take_answer,
}

-- Whether the child says that it does not know the target.
abbrev pub unknown_target : ℕ → String → Bool
unknown_target status code = status == 404 && str_eq code target_not_found

-- The answers of the children that know the target.
abbrev pub answer_of : ForwardReply → List (ℕ × String)
answer_of (forward_error e) = []
answer_of (forward_answer status code) =
    if unknown_target status code then [] else (status, code) ∷ []

abbrev pub is_error : ForwardReply → Bool
is_error (forward_error e) = true
is_error (forward_answer status code) = false

abbrev pub answers : (String → ForwardReply) → List String → List (ℕ × String)
answers forward [] = []
answers forward (url ∷ urls) = answer_of (forward url) ++ answers forward urls

abbrev pub any_error : (String → ForwardReply) → List String → Bool
any_error forward [] = false
any_error forward (url ∷ urls) = is_error (forward url) || any_error forward urls

-- One answer is passed on, several are a conflict; with none it matters whether a child failed.
abbrev pub expected : List (ℕ × String) → Bool → ForwardResult
expected [] true = refused 502 target_unavailable
expected [] false = refused 404 target_not_found
expected (a ∷ []) failed = passed_on a.0 a.1
expected (a ∷ b ∷ rest) failed = refused 409 target_ambiguous

abbrev matched_list : Option (ℕ × String) → List (ℕ × String)
matched_list none = []
matched_list (some a) = a ∷ []

end_expected :
    (matched : Option (ℕ × String)) (failed : Bool)
    → search_end (record { matched = matched; failed = failed })
      ≡ expected (matched_list matched) failed
unfolding search_end
end_expected none true = refl
end_expected none false = refl
end_expected (some a) failed = refl

abbrev pub search_of : Option (ℕ × String) → Bool → Search
search_of matched failed = record { matched = matched; failed = failed }

-- The rest of a search, for the answers and the failures that are still to come.
abbrev Expects : (Search → ForwardResult × List String) → List (ℕ × String) → Bool → Type 0
Expects next later_answers later_error =
    (matched : Option (ℕ × String)) (failed : Bool)
    → (next (search_of matched failed)).0
      ≡ expected (matched_list matched ++ later_answers) (failed || later_error)

expected_two :
    (a b : ℕ × String) (rest : List (ℕ × String)) (failed : Bool)
    → expected (a ∷ b ∷ rest) failed ≡ refused 409 target_ambiguous
expected_two a b rest failed = refl

continue_answer-expected :
    (next : Search → ForwardResult × List String) (url code : String) (status : ℕ)
    (later_answers : List (ℕ × String)) (later_error : Bool) (matched : Option (ℕ × String))
    (failed : Bool)
    → Expects next later_answers later_error
    → (continue_search next url
        (take_reply (forward_answer status code) (search_of matched failed))).0
      ≡ expected
          (matched_list matched ++ (answer_of (forward_answer status code) ++ later_answers))
          (failed || later_error)
unfolding continue_search take_reply take_answer
continue_answer-expected next url code status later_answers later_error none failed ih =
    elim (Bool-cases (unknown_target status code)) [
      | inl q ↦ rw q (ih none failed)
      | inr q ↦ rw q (ih (some (status, code)) failed)
    ]
continue_answer-expected next url code status later_answers later_error (some a) failed ih =
    elim (Bool-cases (unknown_target status code)) [
      | inl q ↦ rw q (ih (some a) failed)
      | inr q ↦ rw q refl
    ]

continue-expected :
    (next : Search → ForwardResult × List String) (url : String) (o : ForwardReply)
    (later_answers : List (ℕ × String)) (later_error : Bool) (matched : Option (ℕ × String))
    (failed : Bool)
    → Expects next later_answers later_error
    → (continue_search next url (take_reply o (search_of matched failed))).0
      ≡ expected
          (matched_list matched ++ (answer_of o ++ later_answers))
          (failed || (is_error o || later_error))
unfolding continue_search take_reply
continue-expected next url (forward_error e) later_answers later_error matched true ih =
    ih matched true
continue-expected next url (forward_error e) later_answers later_error matched false ih =
    ih matched true
continue-expected next url (forward_answer status code) later_answers later_error matched failed
      ih =
    continue_answer-expected next url code status later_answers later_error matched failed ih

pub search_expected :
    (forward : String → ForwardReply) (urls : List String)
    → Expects (search_children forward urls) (answers forward urls) (any_error forward urls)
unfolding search_children
search_expected forward [] none true = end_expected none true
search_expected forward [] none false = end_expected none false
search_expected forward [] (some a) failed = end_expected (some a) _
search_expected forward (url ∷ urls) matched failed =
    continue-expected (search_children forward urls) url (forward url) (answers forward urls)
      (any_error forward urls) matched failed (search_expected forward urls)
