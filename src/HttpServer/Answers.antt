-- ===== src/HttpServer/Answers.antt =====
-- async_http_server.cpp: what an answer says.
use networking_cpp_intro.Common.{ℕ, ◌≡◌, Bool, List, arith}
use networking_cpp_intro.HttpServer.{
  Request, Opened, get, head, empty_body, file_body, handle_request, requested_path, ok,
}

-- HEAD is answered as GET is, with the same status, version, content type, length and keep-alive; a
-- file is left out of the answer.
pub head_like_get :
    (iequals : List ℕ → List ℕ → Bool) (open_file : List ℕ → Opened) (doc_root : List ℕ)
    (req : Request)
    → let g = handle_request iequals open_file doc_root (record req { method = get }) in
      let h = handle_request iequals open_file doc_root (record req { method = head }) in
      (h ≡ record g { body = h.body })
      × (g.status ≡ ok
          → (h.body ≡ empty_body) × (g.body ≡ file_body (requested_path doc_root req.target)))
unfolding handle_request
head_like_get iequals open_file doc_root req = ground arith
