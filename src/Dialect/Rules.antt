-- ===== src/Dialect/Rules.antt =====
-- The text of `DIALECT_RULES` (src/dialect.rs), line by line.
use proveno_gateway.Prelude.{List, [], ◌∷◌, String}

pub rule_lines : List String
rule_lines =
    "# Lua dialect (version 5)" ∷ ""
    ∷ "Programs are a restricted, deterministic Lua. The rules below are enforced"
    ∷ "before the program runs; a violation is returned as a line-numbered error." ∷ ""
    ∷ "- Not available (rejected at parse time): debug, io, os, package, require,"
    ∷ "  load, dofile, loadfile, loadstring, collectgarbage, setmetatable,"
    ∷ "  getmetatable, rawget, rawset, setfenv, getfenv, coroutine."
    ∷ "- Integers only. There are no floats and no float literals. Use `//` for"
    ∷ "  division; `/` is not supported."
    ∷ "- Non-integer numbers returned by tools arrive as decimal strings, such as"
    ∷ "  \"2500.75\". `decimal.parse(text, scale)` turns one into an integer counting"
    ∷ "  units of 10^-scale: `decimal.parse(\"2500.75\", 2)` is 250075. Compare and add"
    ∷ "  integers of the same scale, and turn one back into text with"
    ∷ "  `decimal.format(value, scale)`. Fewer fractional digits than `scale` are"
    ∷ "  padded, so `decimal.parse(\"2500.0\", 2)` is 250000. More is an error even"
    ∷ "  when the extra digits are zeros: `decimal.parse(\"2550.750\", 2)` fails. Parse"
    ∷ "  at a scale at least as large as the digits the tool returns, and narrow with"
    ∷ "  `decimal.rescale(value, from, to)`, which fails rather than drop a non-zero"
    ∷ "  digit. `decimal` functions never divide or round; `math.scale_div` divides"
    ∷ "  and truncates. **Its third argument is a multiplier, not a number of digits**,"
    ∷ "  unlike `scale` in the `decimal` functions: a percentage move in basis points is"
    ∷ "  `math.scale_div(now - past, past, 10000)`, and passing `4` there multiplies by"
    ∷ "  4, which truncates a 2% move to 0. Scales run from 0 to 18, and exponents"
    ∷ "  such as \"1e3\" are refused; a very large or very small number from a tool can arrive in that"
    ∷ "  form, such as \"1e-7\". A field the Tool API types"
    ∷ "  `integer|string(decimal)` can arrive as either, and `decimal.parse` takes"
    ∷ "  only a string, so write `decimal.parse(tostring(v), 2)`. `tonumber` parses whole numbers only: it"
    ∷ "  returns nil for \"2500.75\"."
    ∷ "- No user-defined globals. Declare every variable and function `local`; the"
    ∷ "  only globals are the library names listed below."
    ∷ "- Iterate tables with `pairs_sorted(t)`; `pairs` is also sorted, and `ipairs`"
    ∷ "  walks arrays."
    ∷ "- Every call returns exactly one value, and a function returns one value:"
    ∷ "  `return a, b` does not compile. The one two-value form in the language is"
    ∷ "  `local ok, err = pcall(function() ... end)`; a third name there gets nil."
    ∷ "  Anywhere else, as in `local ok = pcall(f)`, `return pcall(f)` or"
    ∷ "  `if pcall(f) then`, `pcall` gives `ok` alone. There is no multiple"
    ∷ "  assignment: `ok, err = pcall(f)` does not compile, so declare the pair with" ∷ "  `local`."
    ∷ "- Functions take a fixed parameter list; `...` is rejected."
    ∷ "- Strings have methods: `s:sub(1, 4)` is `string.sub(s, 1, 4)`, for every"
    ∷ "  `string` function listed below."
    ∷ "- Two shapes fail before the run with `bytecode verification failed:"
    ∷ "  RetStackMismatch` at line 0. This is a known core bug, not a mistake in the"
    ∷ "  program, but it must be avoided:"
    ∷ "  - `return` in the body of a `for ... in ipairs(...)`, `pairs(...)` or"
    ∷ "    `pairs_sorted(...)` loop, even inside an `if` or an inner loop, and"
    ∷ "    whether or not the loop is in a function. Set a local and `break`, then"
    ∷ "    return after the loop, or loop with `for i = 1, #t do`, where `return`"
    ∷ "    works. A `function() ... end` written in the loop body may `return`, so"
    ∷ "    `pcall(function() return ... end)` inside the loop is fine."
    ∷ "  - A `function t.name(a)` or `function t:name(a)` statement. Write"
    ∷ "    `t.name = function(self, a) ... end` instead; `t:name(a)` then works."
    ∷ "- The standard library is this list and nothing else. Any other name under"
    ∷ "  `string`, `math`, `table`, `json` or `decimal` is nil, and calling it fails."
    ∷ "  - string: `len`, `sub`, `find`, `find_literal`, `upper`, `lower`, `rep`,"
    ∷ "    `byte`, `char`, `format`."
    ∷ "  - math: `abs`, `min`, `max`, `scale_div(a, b, multiplier)`"
    ∷ "    (`a * multiplier` divided by `b`, truncated towards zero, where `//`"
    ∷ "    floors: a -2.0004% move is -200 basis points, not -201; `multiplier` is a"
    ∷ "    plain factor such as 100 or 10000, not a digit count), `maxinteger`,"
    ∷ "    `mininteger`." ∷ "  - table: `insert`, `remove`, `concat`, `sort`, `move`."
    ∷ "  - json: `encode`, `decode`, `decode_strings`. `decode` rejects a number with"
    ∷ "    a fractional part or an exponent; `decode_strings` returns every number as"
    ∷ "    its source text." ∷ "  - decimal: `parse(text, scale)`, `format(value, scale)`,"
    ∷ "    `rescale(value, from, to)`."
    ∷ "  - Globals: `pcall`, `error`, `type`, `tostring`, `tonumber`, `select`,"
    ∷ "    `unpack`, `pairs_sorted`, `pairs`, `ipairs`, `log`, `print`. `type`"
    ∷ "    answers \"integer\" for a number, never \"number\"."
    ∷ "- There are no string patterns. `string.match`, `string.gmatch` and"
    ∷ "  `string.gsub` exist but every call fails at run time."
    ∷ "  `string.find(s, needle [, init [, plain]])` fails if `needle` holds any of"
    ∷ "  `^ $ ( ) % . [ ] * + - ?`, unless `plain` is `true`: then it searches for"
    ∷ "  the literal, as `string.find_literal(s, needle [, init])` always does. Both"
    ∷ "  return the 1-based start index only, or nil."
    ∷ "- `string.format` takes `%d`, `%x`, `%s` and `%%`. `%d`, `%x` and `%s` accept"
    ∷ "  the flags `-` (left-align) and `0` (zero-pad, not on `%s`), and a width and a"
    ∷ "  precision of at most two digits each: `string.format(\"%05d\", 42)` is"
    ∷ "  \"00042\". `%f`, `%e` and `%g` are refused, because there are no floats: use"
    ∷ "  `decimal.format`."
    ∷ "- Time and randomness exist only as tool calls, so they are recorded."
    ∷ "- A tool is called by the exact name given in the Tool API below, as"
    ∷ "  `<downstream>.<tool>{ arg = value }`. Those two names are placeholders for"
    ∷ "  the ones listed there: if the API lists `market.get_price`, write"
    ∷ "  `market.get_price{ pair = \"ETH/USD\" }`, not `server.market.get_price{...}`"
    ∷ "  and not `tool.call(...)`. A failed or denied call raises an error; catch it"
    ∷ "  with `local ok, res = pcall(function() return market.get_price{ ... } end)`."
    ∷ "  `pcall(tool.call, ...)` is not supported."
    ∷ "- A run that fails, such as on an uncaught denial, comes back as an error result"
    ∷ "  whose text starts with the status kind, as in `ToolError: ...`, and any tool"
    ∷ "  calls it made have already happened. To report a partial outcome as a"
    ∷ "  success, catch the denial with `pcall` and return what happened."
    ∷ "- Join strings with `..`, as in `\"tx \" .. hash`. `string.format` is available"
    ∷ "  for widths and padding." ∷ "- The value of the final `return` is the result." ∷ []
