-- ===== src/Client/Http/Post.antt =====
-- What `http_build_post_head` builds.
use sasy_server.Base.{
  ◌+◌, ◌<◌, ◌≤◌, ◌^◌, ◌≡◌, refl, ◌++◌, lt→ltb, le→ltb, Bytes, length, length-append, append_assoc,
  arith, All, codes, ok, fault,
}
use sasy_server.Base.Int.{pos}
use sasy_server.Client.Decimal.Digits.{IsDigit}
use sasy_server.Client.Decimal.Value.{read_int, read_int-itoa_parser}
use sasy_server.Client.Http.{post_size, post_text, http_build_post_head}

post_front : Bytes → Bytes
post_front api =
    codes "POST /"
    ++ (api
        ++ (codes " HTTP/1.1\r\n"
            ++ (codes "Host: 127.0.0.1:3002\r\n"
                ++ codes "Content-Type: application/x-www-form-urlencoded\r\n")))

post_text-split :
    (api digits body : Bytes)
    → post_text api digits body
      ≡ post_front api
        ++ (codes "Content-Length: "
            ++ (digits ++ (codes "\r\nConnection: Keep-Alive\r\n\r\n" ++ body)))
unfolding post_front
post_text-split api digits body = simp (append_assoc)

length-post_text :
    (api digits body : Bytes)
    → length (post_text api digits body) ≡ length api + length digits + length body + 132
length-post_text api digits body = omega (
  arith,
  length-append api (
      codes " HTTP/1.1\r\n"
      ++ (codes "Host: 127.0.0.1:3002\r\n"
          ++ (codes "Content-Type: application/x-www-form-urlencoded\r\n"
              ++ (codes "Content-Length: "
                  ++ (digits
                      ++ (codes "\r\n" ++ (codes "Connection: Keep-Alive\r\n\r\n" ++ body))))))),
  length-append digits (codes "\r\n" ++ (codes "Connection: Keep-Alive\r\n\r\n" ++ body)),
)

-- With an interface and a body of at most 8500 characters together, the request is built within its
-- block, and ends in the length of the body, which is read from its digits, the rest of the header with
-- its blank line, and the body.
pub http_build_post_head_lem :
    (api body : Bytes)
    → length api + length body ≤ 8500
    → (request : Bytes) × (before : Bytes) × (digits : Bytes) × (http_build_post_head api body
        ≡ ok request)
      × (request
          ≡ before
            ++ (codes "Content-Length: "
                ++ (digits ++ (codes "\r\nConnection: Keep-Alive\r\n\r\n" ++ body))))
      × (read_int digits ≡ pos (length body))
      × All IsDigit digits
unfolding http_build_post_head
http_build_post_head_lem api body h =
    let (digits, ds, e, r, a, short, e_neg, r_neg, a_neg) =
      read_int-itoa_parser (length body) (omega arith) in
    (
      post_text api digits body,
      post_front api,
      digits,
      rw e (
          rw
            (lt→ltb (length (post_text api digits body)) post_size
              (omega (arith, length-post_text api digits body, short)))
            refl),
      post_text-split api digits body,
      r,
      a,
    )

-- With 8572 or more characters together (and a body of less than 2 ^ 31), the calls of `strcat` run
-- over the end of the block.
pub http_build_post_head-overrun :
    (api body : Bytes)
    → length body < 2 ^ 31
    → 8572 ≤ length api + length body
    → http_build_post_head api body ≡ fault
unfolding http_build_post_head
http_build_post_head-overrun api body h l =
    let (digits, ds, e, r, a, short, e_neg, r_neg, a_neg) = read_int-itoa_parser (length body) h in
    rw e (
      rw
        (le→ltb (length (post_text api digits body)) post_size
          (omega (arith, length-post_text api digits body)))
        refl)
