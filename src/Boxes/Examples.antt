-- ===== src/Boxes/Examples.antt =====
-- The boxes of a new form (closedbsd/config/misc.c).
use closed_bsd.Base.{◌≡◌, []}
use closed_bsd.Boxes.Screen.{printed_boxes, rule_boxes, printed_boxes-rule_boxes}
use closed_bsd.Filter.Form.{initial}
use closed_bsd.Filter.Sound.{initial-IsSound}

printed_boxes-rule_boxes_example : printed_boxes (initial []).screen ≡ rule_boxes (initial [])
printed_boxes-rule_boxes_example = printed_boxes-rule_boxes (initial []) (initial-IsSound [])
