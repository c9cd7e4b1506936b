-- ===== src/Client/Http.antt =====
-- `http_build_post_head` and `get_http_response_body` of game_room/client/select.h.
pub mod Whole
pub mod Post
pub mod Header
pub mod Parts
pub mod Register
pub mod Sessions
use sasy_server.Base.{
  ℕ, zero, suc, ◌+◌, ◌-◌, Bool, true, false, ◌&&◌, [], ◌∷◌, ◌++◌, ltb, leb, ◌==◌, if◌then◌else◌,
  Bytes, length, get_or, take, drop, codes, Outcome, ok, fault, ◌>>=◌,
}
use sasy_server.Base.Int.{ℤ, pos, negsuc}
use sasy_server.Client.Search.{string_search}
use sasy_server.Client.Decimal.{itoa_parser}
use sasy_server.Client.Decimal.Value.{decimal}

-- `512 + 8192`
abbrev pub post_size : ℕ
post_size = 512 + 8192

-- The calls of `strcat`; the texts of the program have no zero byte.
abbrev pub post_text : Bytes → Bytes → Bytes → Bytes
post_text api digits body =
    codes "POST /"
    ++ (api
        ++ (codes " HTTP/1.1\r\n"
            ++ (codes "Host: 127.0.0.1:3002\r\n"
                ++ (codes "Content-Type: application/x-www-form-urlencoded\r\n"
                    ++ (codes "Content-Length: "
                        ++ (digits
                            ++ (codes "\r\n"
                                ++ (codes "Connection: Keep-Alive\r\n\r\n" ++ body))))))))

-- A text that leaves no byte for the zero at the end overruns the block.
unfoldable pub http_build_post_head : Bytes → Bytes → Outcome Bytes
http_build_post_head api body = itoa_parser (pos (length body)) 10 >>= λ digits.
    (if ltb (length (post_text api digits body)) post_size
      then ok (post_text api digits body)
      else fault)

abbrev pub line_feed : Bytes
line_feed = codes "\r\n\r\n"

abbrev pub content : Bytes
content = codes "content-length: "

-- `isdigit`
abbrev pub is_digit : ℕ → Bool
is_digit c = leb b'0' c && leb c b'9'

-- The loop over the digits from index `p` on: `ltemp`, and `bbody_flag`. `rounds` is what is left of
-- the eight characters of `ltemp`.
unfoldable pub length_loop : ℕ → Bytes → ℕ → ℕ → Bytes × Bool
length_loop zero pdata len_data p = ([], false)
length_loop (suc rounds) pdata len_data p =
    let c = get_or pdata p 0 in
    let (ltemp, flag) = length_loop rounds pdata len_data (p + 1) in
    if is_digit c
    then (if leb len_data (p + 1) then (c ∷ [], false) else (c ∷ ltemp, flag))
    else ([], true)

-- `len_body` is -1; or 0 with `*len_http_data`; or the length of the body, which is copied, with
-- `*len_http_data`.
pub data Response : Type 0 where
  incomplete : Response
  too_long : ℕ → Response
  whole : Bytes → ℕ → Response

-- With the lines' end at `pos_line_feed` and the length's text and flag.
unfoldable pub take_body : Bytes → ℕ → ℕ → ℕ → Bytes × Bool → Response
take_body pdata len_data len_buff pos_line_feed (ltemp, flag) =
    let len_temp = decimal 0 ltemp in
    let start = pos_line_feed + length line_feed in
    if flag && ltb 0 len_temp && (len_data - start == len_temp)
    then (if leb len_temp len_buff
        then whole (take len_temp (drop start pdata)) (start + len_temp)
        else too_long (start + len_temp))
    else incomplete

-- `if (pos_line_feed > 0)`, `if (pos_content > 0)`
unfoldable pub with_positions : Bytes → ℕ → ℕ → ℤ → ℤ → Response
unfolding length_loop take_body
with_positions pdata len_data len_buff (pos l) (pos c) =
    if ltb 0 l && ltb 0 c
    then take_body pdata len_data len_buff l (length_loop 8 pdata len_data (c + length content))
    else incomplete
with_positions pdata len_data len_buff (pos l) (negsuc c) = incomplete
with_positions pdata len_data len_buff (negsuc l) c = incomplete

-- The second search has no effect, and is made here in every case.
unfoldable pub get_http_response_body : Bytes → ℕ → ℕ → Outcome Response
unfolding with_positions
get_http_response_body pdata len_data len_buff =
    string_search pdata len_data line_feed (length line_feed) >>= λ pos_line_feed.
    string_search pdata len_data content (length content) >>= λ pos_content.
    ok (with_positions pdata len_data len_buff pos_line_feed pos_content)
