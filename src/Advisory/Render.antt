-- ===== src/Advisory/Render.antt =====
-- `render_markdown` of src/advisory/mod.rs: the advisories as a block of a notification's body.
use Prim.Native.String.{◌++◌}
use xrelease.Base.{
  ℕ, ◌-◌, String, Option, none, some, List, [], ◌∷◌, length, take, ltb, if◌then◌else◌,
}
use xrelease.Text.{decimal}
use xrelease.Advisory.{Advisory, Severity, severity_text, max_severity}

abbrev pub max_rendered_advisories : ℕ
max_rendered_advisories = 8

highest_part : Option Severity → String
highest_part none = ""
highest_part (some max) = ", highest: " ++ severity_text max

summary_part : Option String → String
summary_part none = ""
summary_part (some summary) = " — " ++ summary

-- The label, and the summary; the vector stands in for a label that is missing.
marks_part : Option Severity → Option String → Option String → String
unfolding summary_part
marks_part (some severity) summary vector =
    " (" ++ (severity_text severity ++ (")" ++ summary_part summary))
marks_part none summary none = summary_part summary
marks_part none summary (some vector) = summary_part summary ++ (" — `" ++ (vector ++ "`"))

url_part : Option String → String
url_part none = ""
url_part (some url) = "\n  " ++ url

unfoldable pub advisory_line : Advisory → String
unfolding marks_part url_part
advisory_line a =
    "\n- **"
    ++ (a.display_id ++ ("**" ++ (marks_part a.severity a.summary a.cvss_vector ++ url_part a.url)))

advisory_lines : List Advisory → String
advisory_lines [] = ""
advisory_lines (a ∷ advisories) = advisory_line a ++ advisory_lines advisories

omitted_part : ℕ → String
omitted_part omitted = if ltb 0 omitted then "\n- …and " ++ (decimal omitted ++ " more") else ""

unfoldable pub render_markdown : List Advisory → String
unfolding highest_part advisory_lines omitted_part
render_markdown [] = ""
render_markdown (a ∷ advisories) =
    let all = a ∷ advisories in
    "\n\n---\n**Security advisories** ("
    ++ (decimal (length all)
        ++ (highest_part (max_severity all)
            ++ (")\n"
                ++ (advisory_lines (take max_rendered_advisories all)
                    ++ omitted_part (length all - max_rendered_advisories)))))
