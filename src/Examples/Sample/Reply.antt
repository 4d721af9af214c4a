-- ===== src/Examples/Sample/Reply.antt =====
-- A library that writes a header where it and one more byte fit before the end, and nothing otherwise.
use ff_http_lws.Base.{
  ℕ, ◌+◌, ◌≤◌, ◌≡◌, [], ◌∷◌, ◌++◌, ℤ, pos, negsuc, Bytes, codes, length, leb, if◌then◌else◌, arith,
}
use ff_http_lws.Lws.Reply.{LwsReply, LwsReplyDocs, LwsReplyLines}
use ff_http_lws.Examples.Sample.Engine.{from_int}

abbrev line_end : Bytes
line_end = 13 ∷ 10 ∷ []

abbrev fit : Bytes → ℕ → ℤ → ℤ × Bytes
fit text p (pos end) = if leb (p + length text + 1) end then (pos 0, text) else (pos 1, [])
fit text p (negsuc n) = (pos 1, [])

abbrev pub sample_reply : LwsReply
sample_reply = record {
  add_http_header_status = λ w code. fit (codes "HTTP/1.1 " ++ from_int code ++ line_end);
  add_http_header_by_name = λ w name value len. fit (name ++ value ++ line_end);
  add_http_header_by_token = λ w t value len. fit (codes "known:" ++ value ++ line_end);
  add_http_header_content_length = λ w n. fit (codes "content-length:" ++ from_int n ++ line_end);
  finalize_http_header = λ w. fit line_end;
  callback_http_dummy = λ p trace. pos 1;
}

fit_in_bounds : (text : Bytes) (p end : ℕ) → p ≤ end → p + length (fit text p (pos end)).1 ≤ end
fit_in_bounds text p end h = ground arith

pub sample_reply-docs : LwsReplyDocs sample_reply
sample_reply-docs = record {
  status_in_bounds =
      λ w code p end. fit_in_bounds (codes "HTTP/1.1 " ++ from_int code ++ line_end) p end;
  by_name_in_bounds = λ w name value len p end. fit_in_bounds (name ++ value ++ line_end) p end;
  by_token_in_bounds =
      λ w t value len p end. fit_in_bounds (codes "known:" ++ value ++ line_end) p end;
  content_length_in_bounds =
      λ w len p end. fit_in_bounds (codes "content-length:" ++ from_int len ++ line_end) p end;
  finalize_in_bounds = λ w p end. fit_in_bounds line_end p end;
}

pub fit_room :
    (text : Bytes) (p end : ℕ) → p + length text + 1 ≤ end → fit text p (pos end) ≡ (pos 0, text)
fit_room text p end h = ground arith

unfoldable pub sample_reply-lines : LwsReplyLines sample_reply
sample_reply-lines = record {
  slack = 1;
  status_line = λ w code. codes "HTTP/1.1 " ++ from_int code ++ line_end;
  name_line = λ w name value len. name ++ value ++ line_end;
  token_line = λ w t value len. codes "known:" ++ value ++ line_end;
  length_line = λ w n. codes "content-length:" ++ from_int n ++ line_end;
  end_line = λ w. line_end;
  status_room = λ w code p end. fit_room (codes "HTTP/1.1 " ++ from_int code ++ line_end) p end;
  name_room = λ w name value len p end. fit_room (name ++ value ++ line_end) p end;
  token_room = λ w t value len p end. fit_room (codes "known:" ++ value ++ line_end) p end;
  length_room = λ w n p end. fit_room (codes "content-length:" ++ from_int n ++ line_end) p end;
  end_room = λ w p end. fit_room line_end p end;
}
